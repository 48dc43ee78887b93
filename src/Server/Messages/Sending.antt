-- ===== src/Server/Messages/Sending.antt =====
-- Who may send a message, and what a message does.
use node_chat_api.Prelude.{
  ℕ, ◌+◌, ◌≡◌, String, Option, none, some, [], ◌∷◌, ◌++◌, Bool, not, ◌&&◌, is_some, arith, refl,
  ◌==◌, if◌then◌else◌,
}
use node_chat_api.Text.{Text, trim, is_empty}
use node_chat_api.Action.{ok}
use node_chat_api.Models.{Room, Message, MessageType}
use node_chat_api.Backend.{matching}
use node_chat_api.World.{Backend, find_room}
use node_chat_api.Members.{has_member}
use node_chat_api.Messages.{to_message_response, create_message}
use node_chat_api.Rooms.Roles.{IsDistinct}
use node_chat_api.Unread.{increment_unread}
use node_chat_api.Unread.Counts.{unread_count, increment_unread_lem}
use node_chat_api.MessageLimit.{check_message_rate_limit}
use node_chat_api.Middleware.{Caller}
use node_chat_api.Server.{Socket, Server, safe, to_socket, to_room, error, message_new}
use node_chat_api.Server.Messages.{message_send}

-- The code of the error, if the message is not to be sent.
unfoldable pub verdict : Text → Caller → Bool → Option Room → Option String
verdict text caller allowed room =
    if is_empty (trim text)
    then some "INVALID_CONTENT"
    else if not caller.verified
    then some "UNVERIFIED"
    else if not allowed
    then some "RATE_LIMITED"
    else if is_some (matching (λ r. has_member caller.sub r.members) room)
    then none
    else some "NOT_MEMBER"

pub sent : ℕ → ℕ → Caller → Text → ℕ → Message
sent i room caller text now = record {
  id = i;
  room_id = room;
  sender_id = caller.sub;
  sender_username = caller.username;
  content = trim text;
  type = MessageType.text;
  edited_at = none;
  deleted_at = none;
  reactions = [];
  created_at = now;
}

module _ ⦃b : Backend⦄ where
  message_send_refused :
      (socket : Socket) (i nonce room : ℕ) (text : Text) (allowed : Bool) (code : String)
      (s : Server)
      → (check_message_rate_limit nonce socket.user.sub s.world).0 ≡ ok allowed
      → verdict text socket.user allowed (find_room room s.world) ≡ some code
      → let s' = (message_send i nonce socket room (some text) s).1 in
        (s'.emitted ≡ s.emitted ++ (to_socket socket.id, error code) ∷ [])
        × (s'.world.messages ≡ s.world.messages)
        × (s'.world.redis ≡ s.world.redis)
  unfolding message_send safe check_message_rate_limit create_message verdict
  message_send_refused socket i nonce room text allowed code s a v = ground arith

  pub message_send-sent :
      (socket : Socket) (i nonce room : ℕ) (text : Text) (allowed : Bool) (s : Server) (r : Room)
      (t : b.messages.State)
      → (check_message_rate_limit nonce socket.user.sub s.world).0 ≡ ok allowed
      → find_room room s.world ≡ some r
      → verdict text socket.user allowed (find_room room s.world) ≡ none
      → b.messages.create i (sent i room socket.user text s.world.now) s.world.messages ≡ some t
      → let s' = (message_send i nonce socket room (some text) s).1 in
        let w' = (increment_unread room socket.user.sub s.world).1 in
        (s'.emitted
          ≡ s.emitted
            ++ (
              to_room room,
              message_new (to_message_response (sent i room socket.user text s.world.now)),
            )
              ∷ [])
        × (s'.world.messages ≡ t)
        × (s'.world.now ≡ w'.now)
        × (s'.world.redis ≡ w'.redis)
  unfolding message_send safe check_message_rate_limit create_message verdict sent increment_unread
  message_send-sent socket i nonce room text allowed s r t a e v c = ground arith

  -- What a client's message leads to, by the verdict on it.
  pub Outcome :
      Socket → ℕ → ℕ → Text → Server → Server → b.messages.State → Room → Option String → Type 0
  Outcome socket i room text s s' t r (some code) =
      (s'.emitted ≡ s.emitted ++ (to_socket socket.id, error code) ∷ [])
      × (s'.world.messages ≡ s.world.messages)
      × (s'.world.redis ≡ s.world.redis)
  Outcome socket i room text s s' t r none =
      (s'.emitted
        ≡ s.emitted
          ++ (
            to_room room,
            message_new (to_message_response (sent i room socket.user text s.world.now)),
          )
            ∷ [])
      × (s'.world.messages ≡ t)
      × ((v : ℕ)
          → unread_count v room s'.world
            ≡ unread_count v room s.world
              + (if has_member v r.members && not (v == socket.user.sub) then 1 else 0))

  outcome :
      (socket : Socket) (i nonce room : ℕ) (text : Text) (allowed : Bool) (s : Server) (r : Room)
      (t : b.messages.State) (v : Option String)
      → (check_message_rate_limit nonce socket.user.sub s.world).0 ≡ ok allowed
      → find_room room s.world ≡ some r
      → IsDistinct r.members
      → b.messages.create i (sent i room socket.user text s.world.now) s.world.messages ≡ some t
      → verdict text socket.user allowed (some r) ≡ v
      → Outcome socket i room text s (message_send i nonce socket room (some text) s).1 t r v
  unfolding Outcome
  outcome socket i nonce room text allowed s r t (some code) a e d c v =
      message_send_refused socket i nonce room text allowed code s a (rw e v)
  outcome socket i nonce room text allowed s r t none a e d c v =
      let (told, stored, clock, counters) =
        message_send-sent socket i nonce room text allowed s r t a e (rw e v) c in
      (
        told,
        stored,
        (λ x. ground (arith, told, (increment_unread_lem room socket.user.sub s.world r e d).0 x)),
      )

  -- A message that a client sends to a stored room that lists nobody twice. If it is blank, its sender
  -- unverified, past the limit, or no member, the client gets the error of the first of these that
  -- applies, and no message and no counter changes. Otherwise the collection takes the trimmed message,
  -- the room is told, and the unread counter goes up by one for each member besides the sender, and for
  -- nobody else. (The id that the driver made is free.)
  pub message_send_lem :
      (socket : Socket) (i nonce room : ℕ) (text : Text) (allowed : Bool) (s : Server) (r : Room)
      (t : b.messages.State)
      → (check_message_rate_limit nonce socket.user.sub s.world).0 ≡ ok allowed
      → find_room room s.world ≡ some r
      → IsDistinct r.members
      → b.messages.create i (sent i room socket.user text s.world.now) s.world.messages ≡ some t
      → Outcome socket i room text s
          (message_send i nonce socket room (some text) s).1
          t
          r
          (verdict text socket.user allowed (some r))
  message_send_lem socket i nonce room text allowed s r t a e d c =
      outcome socket i nonce room text allowed s r t _ a e d c refl
