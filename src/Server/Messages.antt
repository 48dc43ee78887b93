-- ===== src/Server/Messages.antt =====
-- socket/messageHandlers.js. A field that the client left out is `none`; ids are given.
pub mod Wrapped
pub mod Answers
pub mod Sending
use node_chat_api.Prelude.{ℕ, String, Option, none, some, not, Bool, if◌then◌else◌}
use node_chat_api.Text.{Text, trim, is_empty}
use node_chat_api.Errors.{type_error}
use node_chat_api.Action.{Action, pure, throw, or_throw, ◌>>=◌, ◌>>◌}
use node_chat_api.World.{Backend}
use node_chat_api.Messages.{
  MessageResponse, create_message, edit_message, delete_message, toggle_reaction,
}
use node_chat_api.Unread.{increment_unread}
use node_chat_api.MessageLimit.{check_message_rate_limit}
use node_chat_api.Server.{
  Socket, Server, serve, emit, safe, to_socket, to_room, error, message_new, message_edit,
  message_delete, message_reaction,
}

module _ ⦃b : Backend⦄ where
  abbrev pub refuse : Socket → String → Action Server Unit
  refuse socket code = emit (to_socket socket.id) (error code)

  -- The counters are bumped without waiting; a failure there would be logged.
  unfoldable pub deliver : Socket → ℕ → MessageResponse → Action Server Unit
  deliver socket room_id message = do
    emit (to_room room_id) (message_new message)
    serve (increment_unread room_id socket.user.sub)

  unfoldable pub accepted : ℕ → Socket → ℕ → Text → Action Server Unit
  unfolding deliver
  accepted message_id socket room_id content = do
    message ← serve (create_message message_id room_id socket.user.sub socket.user.username content)
    deliver socket room_id message

  unfoldable pub limited : ℕ → Socket → ℕ → Text → Bool → Action Server Unit
  unfolding accepted
  limited message_id socket room_id content allowed =
      if not allowed
      then refuse socket "RATE_LIMITED"
      else accepted message_id socket room_id content

  -- The new message's id is made by the driver.
  unfoldable pub send : ℕ → ℕ → Socket → ℕ → Text → Action Server Unit
  unfolding limited
  send message_id nonce socket room_id content =
      if is_empty (trim content)
      then refuse socket "INVALID_CONTENT"
      else if not socket.user.verified
      then refuse socket "UNVERIFIED"
      else do
        allowed ← serve (check_message_rate_limit nonce socket.user.sub)
        limited message_id socket room_id content allowed

  -- 'message:send'
  unfoldable pub message_send : ℕ → ℕ → Socket → ℕ → Option Text → Action Server Unit
  unfolding send
  message_send message_id nonce socket room_id content =
      safe socket (do text ← or_throw content type_error; send message_id nonce socket room_id text)

  unfoldable pub edit : Socket → ℕ → Text → Action Server Unit
  edit socket message_id content =
      if is_empty (trim content) then refuse socket "INVALID_CONTENT" else do
        message ← serve (edit_message message_id socket.user.sub content)
        emit (to_room message.room_id) (message_edit message)

  -- 'message:edit'
  unfoldable pub message_edited : Socket → ℕ → Option Text → Action Server Unit
  unfolding edit
  message_edited socket message_id content =
      safe socket (do text ← or_throw content type_error; edit socket message_id text)

  -- 'message:delete'
  unfoldable pub message_deleted : Socket → ℕ → Action Server Unit
  message_deleted socket message_id = safe socket (do
    result ← serve (delete_message message_id socket.user.sub)
    emit (to_room result.1) (message_delete result.0 result.1))

  unfoldable pub react : Socket → ℕ → Option Text → Action Server Unit
  react socket message_id none = refuse socket "INVALID_EMOJI"
  react socket message_id (some emoji) =
      if is_empty emoji then refuse socket "INVALID_EMOJI" else do
        message ← serve (toggle_reaction message_id socket.user.sub emoji)
        emit (to_room message.room_id)
            (message_reaction message.id message.room_id message.reactions)

  -- 'message:react'
  unfoldable pub message_reacted : Socket → ℕ → Option Text → Action Server Unit
  unfolding react
  message_reacted socket message_id emoji = safe socket (react socket message_id emoji)

-- The four events of clients, and the handlers that `registerMessageHandlers` gives them.
pub data Request : Type 0 where
  to_send : ℕ → ℕ → ℕ → Option Text → Request
  to_edit : ℕ → Option Text → Request
  to_delete : ℕ → Request
  to_react : ℕ → Option Text → Request

module _ ⦃b : Backend⦄ where
  unfoldable pub handle : Socket → Request → Action Server Unit
  unfolding message_send message_edited message_deleted message_reacted
  handle socket (to_send message_id nonce room_id content) =
      message_send message_id nonce socket room_id content
  handle socket (to_edit message_id content) = message_edited socket message_id content
  handle socket (to_delete message_id) = message_deleted socket message_id
  handle socket (to_react message_id emoji) = message_reacted socket message_id emoji
