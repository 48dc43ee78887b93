-- ===== src/Rooms/Overlap/Lost.antt =====
-- A join between the two halves of a kick.
use node_chat_api.Prelude.{ℕ, ◌≡◌, some, false, arith, ==_refl}
use node_chat_api.Action.{ok}
use node_chat_api.Models.{Room, RoomResponse}
use node_chat_api.World.{Backend, World, find_room}
use node_chat_api.Members.{has_member, without_member}
use node_chat_api.Rooms.{to_room_response, kick_loaded, join_room}
use node_chat_api.Rooms.Roles.{has_member-without_member}
use node_chat_api.Rooms.Access.{joined, join_room_lem}

module _ ⦃b : Backend⦄ where
  -- What a kick writes, whatever has happened since it loaded the room.
  kick_loaded_stores :
      (i a t : ℕ) (r : Room) (w v : World) (x : RoomResponse)
      → (kick_loaded i a t r w).0 ≡ ok x
      → find_room i (kick_loaded i a t r v).1
        ≡ some (record r { members = without_member t r.members })
  kick_loaded_stores i a t r w v x e = ground (
    arith,
    ==_refl i,
    b.rooms.find_by_id-save i i (record r { members = without_member t r.members }) v.rooms,
  )

  -- A kick from a public room has loaded the room and will go through. Before it saves, somebody else
  -- joins, and is told that they have. After the save they are not in the room.
  pub kick_loaded-join_room :
      (i a t u : ℕ) (w : World) (r : Room) (x : RoomResponse)
      → find_room i w ≡ some r
      → (kick_loaded i a t r w).0 ≡ ok x
      → r.is_private ≡ false
      → has_member u r.members ≡ false
      → ((join_room i u w).0 ≡ ok (to_room_response (joined u w r)))
        × (s : Room) × (find_room i (kick_loaded i a t r (join_room i u w).1).1 ≡ some s)
        × (has_member u s.members ≡ false)
  kick_loaded-join_room i a t u w r x e goes open_room new = (
    (join_room_lem i u w r e open_room new).0,
    record r { members = without_member t r.members },
    kick_loaded_stores i a t r w (join_room i u w).1 x goes,
    ground (arith, has_member-without_member u t r.members),
  )
