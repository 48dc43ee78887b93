-- ===== src/Server/Messages/Wrapped.antt =====
-- What the wrapper `safe` makes of a handler that emits at most once.
use node_chat_api.Prelude.{
  ◌≡◌, inl, inr, String, [], ◌∷◌, ◌++◌, Bool, true, any, refl, ap, ◌||◌, Bool-cases,
}
use text.Mathlib.Text.{◌==◌ as str_eq}
use node_chat_api.Errors.{
  Error, app, coded, duplicate_key, reference_error, type_error, schema_error,
}
use node_chat_api.Action.{Action, Result, ok, err, ◌>>=◌}
use node_chat_api.World.{Backend, World}
use node_chat_api.Server.{
  Socket, Server, Audience, to_socket, to_room, Event, error, message_new, message_edit,
  message_delete, message_reaction, emit, serve, is_known, known_or_internal, shown_code, safe,
  caught,
}

-- The codes in the table of SOCKET_EVENTS.md.
abbrev pub is_documented : String → Bool
is_documented code =
    is_known code
    || any (λ k. str_eq k code) ("UNVERIFIED" ∷ "RATE_LIMITED" ∷ "INTERNAL_ERROR" ∷ [])

pub known_or_internal-is_documented : (c : String) → is_documented (known_or_internal c) ≡ true
known_or_internal-is_documented c = elim (Bool-cases (is_known c)) [
  | inl known ↦ rw (known, known) refl
  | inr unknown ↦ rw unknown refl
]

pub shown_code-is_documented : (e : Error) → is_documented (shown_code e) ≡ true
unfolding shown_code
shown_code-is_documented (app e) = known_or_internal-is_documented e.code
shown_code-is_documented (coded code) = known_or_internal-is_documented code
shown_code-is_documented duplicate_key = refl
shown_code-is_documented (reference_error name) = refl
shown_code-is_documented type_error = refl
shown_code-is_documented schema_error = refl

-- An error for the socket that asked, or news for a room.
abbrev pub IsAnswer : Socket → Audience × Event → Type 0
IsAnswer socket (to, error code) = (to ≡ to_socket socket.id) × (is_documented code ≡ true)
IsAnswer socket (to, message_new m) = to ≡ to_room m.room_id
IsAnswer socket (to, message_edit m) = to ≡ to_room m.room_id
IsAnswer socket (to, message_delete i r) = to ≡ to_room r
IsAnswer socket (to, message_reaction i r rs) = to ≡ to_room r
IsAnswer socket (to, _) = ⊥

module _ ⦃b : Backend⦄ where
  -- The handler returned, and emitted this one thing.
  abbrev pub Answered : Socket → Server → Result Unit × Server → Type 0
  Answered socket s (r, s') =
      (x : Audience × Event) × (r ≡ ok tt) × (s'.emitted ≡ s.emitted ++ x ∷ []) × IsAnswer socket x

  -- A wrapped handler that threw before it emitted anything, or emitted one thing.
  pub caught_lem :
      (socket : Socket) (s s' : Server) (e : Error)
      → s'.emitted ≡ s.emitted
      → Answered socket s (caught socket (err e) s')
  unfolding caught
  caught_lem socket s s' e h = (
    (to_socket socket.id, error (shown_code e)),
    refl,
    ap (λ es. es ++ (to_socket socket.id, error (shown_code e)) ∷ []) h,
    (refl, shown_code-is_documented e),
  )

  abbrev pub SafeHandler : Socket → Server → Result Unit × Server → Type 0
  SafeHandler socket s (ok _, s') =
      (x : Audience × Event) × (s'.emitted ≡ s.emitted ++ x ∷ []) × IsAnswer socket x
  SafeHandler socket s (err e, s') = s'.emitted ≡ s.emitted

  pub caught-Answered :
      (socket : Socket) (s : Server) (out : Result Unit × Server)
      → SafeHandler socket s out
      → Answered socket s (caught socket out.0 out.1)
  unfolding caught
  caught-Answered socket s (ok u, s') (x, news, answer) = (x, refl, news, answer)
  caught-Answered socket s (err e, s') h = caught_lem socket s s' e h

  pub safe-Answered :
      (socket : Socket) (fn : Action Server Unit) (s : Server)
      → SafeHandler socket s (fn s)
      → Answered socket s (safe socket fn s)
  unfolding safe
  safe-Answered socket fn s h = caught-Answered socket s (fn s) h

  -- A call of a service, and news of its result.
  pub news_after :
      {A : Type 0} (socket : Socket) (k : A → Audience × Event) (s : Server)
      (out : Result A × World)
      → ((a : A) → out.0 ≡ ok a → IsAnswer socket (k a))
      → SafeHandler socket s ((serve (λ _. out) >>= λ a. emit (k a).0 (k a).1) s)
  news_after socket k s (ok a, w) h = (k a, refl, h a refl)
  news_after socket k s (err x, w) h = refl

  pub news_of :
      {A : Type 0} (socket : Socket) (m : Action World A) (k : A → Audience × Event) (s : Server)
      → ((a : A) → (m s.world).0 ≡ ok a → IsAnswer socket (k a))
      → SafeHandler socket s ((serve m >>= λ a. emit (k a).0 (k a).1) s)
  news_of socket m k s h = news_after socket k s (m s.world) h
