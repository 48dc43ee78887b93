-- ===== src/Server/Connections.antt =====
-- socket/index.js: what happens when a socket connects, joins a room later, and disconnects.
pub mod Tabs
pub mod Open
pub mod Online
pub mod Runs
pub mod Apart
pub mod Shown
pub mod Hearing
use node_chat_api.Prelude.{
  ℕ, List, [], ◌∷◌, ◌++◌, Option, none, some, not, filter, any, Bool, map, is_some, ◌==◌, length,
  if◌then◌else◌,
}
use node_chat_api.Errors.{type_error}
use node_chat_api.Action.{Action, Result, ok, err, pure, throw, gets, ◌>>=◌, ◌>>◌}
use node_chat_api.World.{Backend, World}
use node_chat_api.Models.{Room}
use node_chat_api.Members.{has_member}
use node_chat_api.Presence.{mark_online, mark_offline, join_presence}
use node_chat_api.Unread.{get_unread_counts}
use node_chat_api.Server.{Socket, Server, serve, emit, to_socket, unread_counts}

-- `userSockets.get(userId)`, empty where the key is missing.
abbrev pub sockets_of : ℕ → List (ℕ × List ℕ) → List ℕ
sockets_of u [] = []
sockets_of u ((v, ids) ∷ m) = if v == u then ids else sockets_of u m

abbrev pub has_user : ℕ → List (ℕ × List ℕ) → Bool
has_user u m = any (λ e. e.0 == u) m

-- `userSockets.get(userId).add(socket.id)`, under a new key if there is none.
abbrev pub add_socket : ℕ → ℕ → List (ℕ × List ℕ) → List (ℕ × List ℕ)
add_socket u i [] = (u, i ∷ []) ∷ []
add_socket u i ((v, ids) ∷ m) =
    if v == u
    then (v, if any (λ j. j == i) ids then ids else ids ++ i ∷ []) ∷ m
    else (v, ids) ∷ add_socket u i m

-- `sockets.delete(socket.id)`, and the key with the last one.
abbrev pub keep_entry : ℕ → List ℕ → List (ℕ × List ℕ) → List (ℕ × List ℕ)
keep_entry v [] m = m
keep_entry v (i ∷ ids) m = (v, i ∷ ids) ∷ m

abbrev pub drop_socket : ℕ → ℕ → List (ℕ × List ℕ) → List (ℕ × List ℕ)
drop_socket u i [] = []
drop_socket u i ((v, ids) ∷ m) =
    if v == u then keep_entry v (filter (λ j. not (j == i)) ids) m else (v, ids) ∷ drop_socket u i m

module _ ⦃b : Backend⦄ where
  -- middleware/socketAuthenticate.js reads `auth` of `socket.hanshake`, which is undefined, before
  -- anything else.
  pub socket_authenticate : Socket → Action Server Unit
  socket_authenticate socket = throw type_error

  -- `socket.join(room)`
  abbrev pub join_channel : ℕ → ℕ → Action Server Unit
  join_channel socket_id room_id s =
      (ok tt, record s { channels = s.channels ++ (socket_id, room_id) ∷ [] })

  abbrev pub join_all : List ℕ → ℕ → Action Server Unit
  join_all [] room_id = pure tt
  join_all (i ∷ ids) room_id = join_channel i room_id >> join_all ids room_id

  -- `joinUserToRoom`; every socket of the map is connected.
  unfoldable pub join_user_to_room : ℕ → ℕ → Action Server Unit
  join_user_to_room user_id room_id s = join_all (sockets_of user_id s.user_sockets) room_id s

  abbrev pub join_rooms : Socket → List Room → Action Server Unit
  join_rooms socket [] = pure tt
  join_rooms socket (r ∷ rs) =
      join_channel socket.id r.id
      >> serve (join_presence socket.user.sub r.id)
      >> join_rooms socket rs

  track : Socket → Action Server Unit
  track socket s =
      (ok tt, record s { user_sockets = add_socket socket.user.sub socket.id s.user_sockets })

  untrack : Socket → Action Server Unit
  untrack socket s =
      (ok tt, record s { user_sockets = drop_socket socket.user.sub socket.id s.user_sockets })

  -- The body of the handler of 'connection', without the registration of the other handlers. None of
  -- the calls in its `try` throws here.
  unfoldable pub connected : Socket → Action Server Unit
  unfolding track
  connected socket = do
    track socket
    serve (mark_online socket.user.sub)
    rooms ← gets (λ s. b.rooms.find (λ r. has_member socket.user.sub r.members) s.world.rooms)
    join_rooms socket rooms
    counts ← serve (get_unread_counts socket.user.sub)
    emit (to_socket socket.id) (unread_counts counts)

  -- 'disconnect'; `rooms` is what `socket.rooms` holds then, without the socket's own.
  unfoldable pub disconnected : Socket → List ℕ → Action Server Unit
  unfolding untrack
  disconnected socket rooms = do
    untrack socket
    gone ← gets (λ s. not (has_user socket.user.sub s.user_sockets))
    if gone then serve (mark_offline socket.user.sub rooms) else pure tt
