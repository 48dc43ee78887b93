-- ===== src/Server/Typing.antt =====
-- socket/typingHandlers.js. The handlers do nothing when the room is left out.
use node_chat_api.Prelude.{ℕ, Option, none, some, true, false}
use node_chat_api.Action.{Action, pure, ◌>>◌}
use node_chat_api.Backend.{Key, name}
use node_chat_api.World.{Backend, redis_set_ex}
use node_chat_api.Server.{Socket, Server, serve, emit, to_others, typing_update}

abbrev pub typing_ttl : ℕ
typing_ttl = 3

module _ ⦃b : Backend⦄ where
  -- 'typing:start'
  unfoldable pub typing_start : Socket → Option ℕ → Action Server Unit
  typing_start socket none = pure tt
  typing_start socket (some room_id) = do
    serve (redis_set_ex (Key.typing room_id socket.user.sub) (name socket.user.username) typing_ttl)
    emit (to_others socket.id room_id)
        (typing_update room_id socket.user.sub socket.user.username true)

  -- 'typing:stop'
  unfoldable pub typing_stop : Socket → Option ℕ → Action Server Unit
  typing_stop socket none = pure tt
  typing_stop socket (some room_id) =
      emit (to_others socket.id room_id)
        (typing_update room_id socket.user.sub socket.user.username false)
