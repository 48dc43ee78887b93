-- ===== src/Tests/RouterTests.antt =====
-- The routers, the health checks and the mails on the state `start`.
use node_chat_api.Prelude.{
  none, ◌∷◌, arith, String, ℕ, ◌≡◌, ◌⊎◌, refl, some, List, [], Bool, true, false,
}
use node_chat_api.Text.{Text}
use node_chat_api.Errors.{Error, reference_error}
use node_chat_api.Action.{ok, err}
use node_chat_api.Models.{Message}
use node_chat_api.World.{World}
use node_chat_api.Demo.{demo, start}
use node_chat_api.Middleware.{Caller, bearer, malformed, refused}
use node_chat_api.Server.{Server}
use node_chat_api.Worker.{verification_email, send}
use node_chat_api.Http.HealthController.{resolves, hangs, readiness}
use node_chat_api.Http.UsersRouter.{get_me_unread, users_router}
use node_chat_api.Http.AuthRouter.{LimitedRequest, post_register, post_login, post_forgot_password}
use node_chat_api.Http.AuthRouter.Limited.{count_handled, count_handled_lem}
use node_chat_api.Backend.{Key}
use node_chat_api.Http.RoomsRouter.{
  RoomRequest, put_role, delete_member, room_handler, rooms_router,
}
use node_chat_api.Http.Mounts.{Packages, to_rooms, serve_request}
use node_chat_api.Http.Mounts.Anonymous.{is_open, shared, serve_request-is_open}
use node_chat_api.Http.RoomsRouter.Access.{is_allowed, rooms_router-is_allowed}

abbrev ann : Caller
ann = record { sub = 1; username = "ann"; verified = true }

-- Nothing is found in any text.
abbrev engine : Text → (Message → Bool) → demo.messages.State → List Message
engine query p s = []

abbrev at_rest : Server
at_rest = record { world = start; user_sockets = []; channels = []; emitted = [] }

abbrev promotion : RoomRequest
promotion = put_role 10 3 (some "admin")

rooms_router-is_allowed_example :
    ((c : Caller) × (bearer ann ≡ bearer c)
      × (is_allowed promotion c start ≡ true)
      × (rooms_router engine (bearer ann) promotion at_rest
          ≡ room_handler engine promotion c at_rest))
    ⊎ ((x : Error) × (rooms_router engine (bearer ann) promotion at_rest ≡ (err x, at_rest))
        × ((c : Caller) → bearer ann ≡ bearer c → is_allowed promotion c start ≡ false))
rooms_router-is_allowed_example = rooms_router-is_allowed engine (bearer ann) promotion at_rest

-- The user in the middle is a member of the room, and no admin.
member_removes_nobody :
    is_allowed (delete_member 10 2) (record { sub = 3; username = "cho"; verified = true }) start
    ≡ false
member_removes_nobody = refl

unread_is_not_found : (users_router (bearer ann) get_me_unread start).0 ≡ ok 404
unfolding users_router
unread_is_not_found = refl

slow_redis :
    readiness (resolves 3) hangs
    ≡ (record { status = 503; summary = "degraded"; mongodb = "ok"; redis = "error" }, 2003)
unfolding readiness
slow_redis = refl

mail_fails :
    send {S = World} (verification_email "ann@x" 7) start
    ≡ (err (reference_error "transporter"), start)
unfolding send
mail_fails = refl

abbrev packages : Packages
packages = record { dashboard = λ q jobs. (200, jobs); swagger = none }

abbrev retry_after : ℕ → Key → demo.redis.State → String
retry_after now key s = "later"

abbrev wrong_password : LimitedRequest
wrong_password = post_login 6 (some "ann@x") (some (1 ∷ []))

-- A new user, and a request for a new password.
abbrev later : List (ℕ × LimitedRequest)
later =
    (20, post_register 4 9 6 2 (some "dan") (some "dan@x") (some (1 ∷ 2 ∷ 3 ∷ [])))
    ∷ (899000, post_forgot_password 8 (some ("Ann@x", "ann@x")))
    ∷ []

count_handled_lem_example :
    count_handled retry_after (some "10.0.0.1") malformed ((5, wrong_password) ∷ later) start ≡ 3
count_handled_lem_example =
    count_handled_lem retry_after (some "10.0.0.1") malformed 5 wrong_password later start refl
      (omega arith)

-- A promotion with a token that has expired.
serve_request-is_open_example :
    ((is_open (to_rooms promotion) ≡ true)
      × (shared
            (serve_request packages retry_after engine
              (some "10.0.0.1")
              refused
              (to_rooms promotion)
              at_rest).1
          ≡ shared at_rest))
    ⊎ ((is_open (to_rooms promotion) ≡ false) × ((c : Caller) × (refused ≡ bearer c)))
    ⊎ ((is_open (to_rooms promotion) ≡ false)
        × (serve_request packages retry_after engine
              (some "10.0.0.1")
              refused
              (to_rooms promotion)
              at_rest
            ≡ (401, at_rest)))
serve_request-is_open_example =
    serve_request-is_open packages retry_after engine (some "10.0.0.1") refused (to_rooms promotion)
      at_rest
