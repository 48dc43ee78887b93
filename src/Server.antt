-- ===== src/Server.antt =====
-- src/socket: the state of the Socket.IO server, what its handlers emit, and the wrapper `safe` of
-- messageHandlers.js. What Socket.IO and its Redis adapter do with an emission is not modelled: the
-- emissions are recorded, in their order.
pub mod Messages
pub mod Typing
pub mod Reading
pub mod Quiet
pub mod Connections
use text.Mathlib.Text.{◌==◌ as str_eq}
use node_chat_api.Prelude.{
  ℕ, String, List, [], ◌∷◌, ◌++◌, Option, Bool, true, false, ◌||◌, any, if◌then◌else◌,
}
use node_chat_api.Errors.{
  Error, app, coded, duplicate_key, reference_error, type_error, schema_error,
}
use node_chat_api.Action.{Action, Result, ok, err}
use node_chat_api.Models.{Reactions}
use node_chat_api.World.{Backend, World}
use node_chat_api.Messages.{MessageResponse}
use node_chat_api.Middleware.{Caller}

-- A connection: the socket's id and the claims in `socket.user`.
pub record Socket : Type 0 where
  pub id : ℕ
  pub user : Caller

-- `socket.emit`, `io.to(room).emit`, `socket.to(room).emit`, which leaves out the socket itself.
pub data Audience : Type 0 where
  to_socket : ℕ → Audience
  to_room : ℕ → Audience
  to_others : ℕ → ℕ → Audience

-- The events, by their names and with the data that they carry.
pub data Event : Type 0 where
  error : String → Event
  message_new : MessageResponse → Event
  message_edit : MessageResponse → Event
  message_delete : ℕ → ℕ → Event
  message_reaction : ℕ → ℕ → Reactions → Event
  typing_update : ℕ → ℕ → String → Bool → Event
  read_update : ℕ → ℕ → ℕ → Event
  unread_counts : List (ℕ × ℕ) → Event

module _ ⦃b : Backend⦄ where
  -- `user_sockets` is the map `userSockets`; `channels` are the calls of `join`, a socket and a room
  -- each.
  pub record Server : Type 0 where
    pub world : World
    pub user_sockets : List (ℕ × List ℕ)
    pub channels : List (ℕ × ℕ)
    pub emitted : List (Audience × Event)

  -- A call of a service.
  abbrev pub serve : {A : Type 0} → Action World A → Action Server A
  serve m s = let (r, w) = m s.world in (r, record s { world = w })

  abbrev pub emit : Audience → Event → Action Server Unit
  emit to event s = (ok tt, record s { emitted = s.emitted ++ (to, event) ∷ [] })

-- KNOWN_CODES
abbrev pub known_codes : List String
known_codes =
    "NOT_MEMBER" ∷ "EDIT_NOT_ALLOWED" ∷ "DELETE_NOT_ALLOWED" ∷ "INVALID_CONTENT" ∷ "INVALID_EMOJI"
    ∷ "MESSAGE_NOT_FOUND" ∷ []

abbrev pub is_known : String → Bool
is_known code = any (λ k. str_eq k code) known_codes

abbrev pub known_or_internal : String → String
known_or_internal code = if is_known code then code else "INTERNAL_ERROR"

-- `KNOWN_CODES.has(err.code) ? err.code : 'INTERNAL_ERROR'`: other errors have no code, or a number.
unfoldable pub shown_code : Error → String
shown_code (app e) = known_or_internal e.code
shown_code (coded code) = known_or_internal code
shown_code duplicate_key = "INTERNAL_ERROR"
shown_code (reference_error name) = "INTERNAL_ERROR"
shown_code type_error = "INTERNAL_ERROR"
shown_code schema_error = "INTERNAL_ERROR"

module _ ⦃b : Backend⦄ where
  unfoldable pub caught : Socket → Result Unit → Server → Result Unit × Server
  unfolding shown_code
  caught socket (ok _) s = (ok tt, s)
  caught socket (err e) s = emit (to_socket socket.id) (error (shown_code e)) s

  -- `safe(socket, fn)`
  unfoldable pub safe : Socket → Action Server Unit → Action Server Unit
  unfolding caught
  safe socket fn s = let (r, s') = fn s in caught socket r s'
