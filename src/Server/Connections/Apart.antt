-- ===== src/Server/Connections/Apart.antt =====
-- Connections and disconnections leave the rooms alone.
use node_chat_api.Prelude.{ℕ, List, [], ◌∷◌, refl, arith}
use node_chat_api.Models.{Room}
use node_chat_api.Presence.{mark_online, join_presence, mark_offline}
use node_chat_api.Unread.{get_unread_counts}
use node_chat_api.World.{Backend}
use node_chat_api.Action.{◌>>=◌}
use node_chat_api.Action.Keeps.{Keeps, bind-Keeps}
use node_chat_api.Members.{has_member}
use node_chat_api.Server.{Socket, Server, serve, emit, to_socket, unread_counts}
use node_chat_api.Server.Connections.{connected, disconnected, join_rooms, track, untrack}

module _ ⦃b : Backend⦄ where
  abbrev pub rooms_of : Server → b.rooms.State
  rooms_of s = s.world.rooms

  join_rooms-Keeps : (k : Socket) (rs : List Room) → Keeps rooms_of (join_rooms k rs)
  unfolding join_presence
  join_rooms-Keeps k [] = record { kept = λ s. refl }
  join_rooms-Keeps k (r ∷ rs) = record { kept = λ s. (join_rooms-Keeps k rs).kept _ }

  greet-Keeps :
      (k : Socket)
      → Keeps rooms_of (
          serve (get_unread_counts k.user.sub) >>= λ counts.
          emit (to_socket k.id) (unread_counts counts))
  unfolding get_unread_counts
  greet-Keeps k = record { kept = λ s. refl }

  pub connected-Keeps : (k : Socket) → Keeps rooms_of (connected k)
  unfolding connected track mark_online
  connected-Keeps k = record {
    kept = λ s.
        let s1 : Server = (serve (mark_online k.user.sub) (track k s).1).1 in
        let rooms = b.rooms.find (λ r. has_member k.user.sub r.members) s.world.rooms in
        (bind-Keeps rooms_of (join_rooms k rooms)
            (λ u. serve (get_unread_counts k.user.sub) >>= λ counts.
              emit (to_socket k.id) (unread_counts counts))
            (join_rooms-Keeps k rooms) (λ u. greet-Keeps k)).kept
          s1;
  }

  pub disconnected-Keeps : (k : Socket) (rs : List ℕ) → Keeps rooms_of (disconnected k rs)
  unfolding disconnected untrack mark_offline
  disconnected-Keeps k rs = record { kept = λ s. ground arith }
