-- ===== src/Server/Reading.antt =====
-- socket/readReceiptHandlers.js
use node_chat_api.Prelude.{ℕ, Option, none, some, is_some, if◌then◌else◌}
use node_chat_api.Action.{Action, pure, gets, ◌>>=◌, ◌>>◌}
use node_chat_api.Backend.{matching}
use node_chat_api.World.{Backend, find_room}
use node_chat_api.Members.{has_member}
use node_chat_api.Receipts.{mark_read}
use node_chat_api.Server.{Socket, Server, serve, emit, to_room, read_update}

module _ ⦃b : Backend⦄ where
  unfoldable pub marked : Socket → ℕ → Action Server Unit
  marked socket room_id = do
    serve (mark_read socket.user.sub room_id)
    read_at ← gets (λ s. s.world.now)
    emit (to_room room_id) (read_update socket.user.sub room_id read_at)

  -- 'read:mark', which a user who is no member is not answered
  unfoldable pub read_mark : Socket → Option ℕ → Action Server Unit
  unfolding marked
  read_mark socket none = pure tt
  read_mark socket (some room_id) = do
    found ← gets (λ s. find_room room_id s.world)
    if is_some (matching (λ r. has_member socket.user.sub r.members) found)
        then marked socket room_id
        else pure tt
