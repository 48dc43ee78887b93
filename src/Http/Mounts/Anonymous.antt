-- ===== src/Http/Mounts/Anonymous.antt =====
-- What requests to the app may change without a token.
use node_chat_api.Prelude.{
  ℕ, ◌≡◌, ◌⊎◌, inl, inr, refl, String, Option, List, Bool, true, false, arith, ap, Bool-cases,
}
use node_chat_api.Text.{Text}
use node_chat_api.Backend.{Key}
use node_chat_api.Models.{Message}
use node_chat_api.World.{Backend}
use node_chat_api.Auth.Confined.{chats}
use node_chat_api.Middleware.{Caller, Header, malformed, refused, bearer, authenticate}
use node_chat_api.Server.{Server, Audience, Event}
use node_chat_api.Http.{error_handler}
use node_chat_api.Http.RoomsRouter.{rooms_router}
use node_chat_api.Http.UsersRouter.{users_router}
use node_chat_api.Http.AuthRouter.Confined.{auth_router-Keeps, auth_router-authenticates}
use node_chat_api.Http.AuthRouter.Confined
use node_chat_api.Http.Mounts.{
  AppRequest, to_auth, to_rooms, to_users, to_health, to_ready, to_queues, to_swagger, to_other,
  Packages, mounted, serve_request,
}

module _ ⦃b : Backend⦄ where
  -- The requests that need no token.
  abbrev pub is_open : AppRequest → Bool
  is_open (to_auth q) = Confined.is_open q
  is_open (to_rooms q) = false
  is_open (to_users q) = false
  is_open _ = true

  -- The rooms, the messages, the presence, and all that the sockets have and hear.
  abbrev pub shared :
      Server
      → (b.rooms.State × b.messages.State × b.sets.State)
        × List (ℕ × List ℕ)
        × List (ℕ × ℕ)
        × List (Audience × Event)
  shared s = (chats s.world, s.user_sockets, s.channels, s.emitted)

module _ ⦃b : Backend⦄ (packages : Packages) (retry_after : ℕ → Key → b.redis.State → String)
    (engine : Text → (Message → Bool) → b.messages.State → List Message) where
  -- Every request to the app belongs to one of three kinds. The open ones (to register, to log in, for
  -- new tokens, for a new password or with its token, to verify an address, the health checks, the
  -- dashboard of the mail queue, Swagger's pages, and paths that lead nowhere) leave the rooms, the messages, the presence, the sockets and what they have been sent
  -- as they were, whoever sends them. All others either carry an accepted token, or are answered with 401
  -- and change nothing at all.
  pub serve_request-is_open :
      (ip : Option String) (header : Header) (q : AppRequest) (s : Server)
      → ((is_open q ≡ true)
          × (shared (serve_request packages retry_after engine ip header q s).1 ≡ shared s))
        ⊎ ((is_open q ≡ false) × ((c : Caller) × (header ≡ bearer c)))
        ⊎ ((is_open q ≡ false)
            × (serve_request packages retry_after engine ip header q s ≡ (401, s)))
  unfolding serve_request mounted rooms_router users_router authenticate error_handler
  serve_request-is_open ip header (to_auth q) s = elim (Bool-cases (Confined.is_open q)) [
    | inl e ↦ inl (
      e,
      ap (λ z. (z, s.user_sockets, s.channels, s.emitted))
          ((auth_router-Keeps retry_after ip header q).kept s.world),
    )
    | inr e ↦ elim (auth_router-authenticates retry_after ip header q s.world e) [
      | inl known ↦ inr (inl (e, known))
      | inr (message, f) ↦ inr (inr (e, ground (arith, f)))
    ]
  ]
  serve_request-is_open ip malformed (to_rooms q) s = inr (inr (refl, refl))
  serve_request-is_open ip refused (to_rooms q) s = inr (inr (refl, refl))
  serve_request-is_open ip (bearer c) (to_rooms q) s = inr (inl (refl, (c, refl)))
  serve_request-is_open ip malformed (to_users q) s = inr (inr (refl, refl))
  serve_request-is_open ip refused (to_users q) s = inr (inr (refl, refl))
  serve_request-is_open ip (bearer c) (to_users q) s = inr (inl (refl, (c, refl)))
  serve_request-is_open ip header to_health s = inl (refl, refl)
  serve_request-is_open ip header (to_ready mongo redis) s = inl (refl, refl)
  serve_request-is_open ip header (to_queues q) s = inl (refl, refl)
  serve_request-is_open ip header (to_swagger q) s = inl (refl, refl)
  serve_request-is_open ip header to_other s = inl (refl, refl)
