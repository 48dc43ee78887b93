-- ===== src/Http/MessageController.antt =====
-- controllers/messageController.js. The two calls that are not waited for run to their ends before the
-- reply is sent; neither throws here.
pub mod Reading
use node_chat_api.Prelude.{ℕ, List, Bool}
use node_chat_api.Text.{Text}
use node_chat_api.Errors.{type_error}
use node_chat_api.Action.{Action, pure, gets, or_throw, ◌>>=◌, ◌>>◌}
use node_chat_api.Models.{Message}
use node_chat_api.World.{Backend, World}
use node_chat_api.Paginate.{Parsed, Paginated, parse_pagination_query}
use node_chat_api.Messages
use node_chat_api.Messages.{MessageResponse, Before}
use node_chat_api.Unread.{reset_unread}
use node_chat_api.Receipts.{mark_read}
use node_chat_api.Server.{Server, serve, emit, to_room, read_update}
use node_chat_api.Http.{Reply, reply_success}

module _ ⦃b : Backend⦄ where
  -- A query without `q` is a blank one.
  unfoldable pub search_messages :
      (Text → (Message → Bool) → b.messages.State → List Message)
      → ℕ
      → Text
      → Parsed
      → Parsed
      → Action World (Reply (Paginated MessageResponse))
  search_messages engine room_id query page page_size = do
    result ← Messages.search_messages engine room_id query (parse_pagination_query page page_size)
    pure (reply_success result)

  unfoldable pub get_message_history :
      ℕ → ℕ → Before → Parsed → Action Server (Reply Messages.History)
  get_message_history user_id room_id before limit = do
    result ← serve (Messages.get_message_history room_id before limit)
    serve (reset_unread user_id room_id)
    serve (mark_read user_id room_id)
    read_at ← gets (λ s. s.world.now)
    emit (to_room room_id) (read_update user_id room_id read_at)
    pure (reply_success result)
