-- ===== src/Rooms/Valid.antt =====
-- What a valid room is: it lists nobody twice; a group has exactly one owner, a DM has none. Requests
-- that have loaded a valid room leave valid rooms.
use node_chat_api.Prelude.{ℕ, ◌≡◌, Option, none, some, List, true, inl, inr, arith, Option-cases}
use node_chat_api.Models.{Room, Member, RoomType, group, dm, is_owner}
use node_chat_api.World.{Backend, World, find_room}
use node_chat_api.Members.{is_user, find_member, without_member, with_heir}
use node_chat_api.Rooms.Roles.{
  IsDistinct, count_owners, without_member-IsDistinct, count_owners-without_member,
}
use node_chat_api.Rooms.Heir.{owner_counts, with_heir-owner}
use node_chat_api.Rooms.{leave_with, leave_as_owner, kick_loaded, leave_loaded, delete_loaded}

abbrev pub owners_of : RoomType → ℕ
owners_of group = 1
owners_of dm = 0

abbrev pub IsValidRoom : Room → Type 0
IsValidRoom r = IsDistinct r.members × (count_owners r.members ≡ owners_of r.type)

abbrev pub ValidAt : Option Room → Type 0
ValidAt none = Unit
ValidAt (some r) = IsValidRoom r

module _ ⦃b : Backend⦄ where
  abbrev pub IsValid : World → Type 0
  IsValid w = (j : ℕ) → ValidAt (find_room j w)

  pub ValidAt-save :
      (i j : ℕ) (r : Room) (w : World)
      → IsValidRoom r
      → ValidAt (find_room j w)
      → ValidAt (b.rooms.find_by_id (b.rooms.save i r w.rooms) j)
  ValidAt-save i j r w v h = ground (arith, b.rooms.find_by_id-save i j r w.rooms)

  pub kick_loaded-ValidAt :
      (i a t j : ℕ) (r : Room) (w : World)
      → IsValid w
      → IsValidRoom r
      → ValidAt (find_room j (kick_loaded i a t r w).1)
  kick_loaded-ValidAt i a t j r w h v = elim (Option-cases (find_member t r.members)) [
    | inl g ↦ ground (arith, h j)
    | inr (m, g) ↦ ground (
      arith,
      h j,
      ValidAt-save i j (record r { members = without_member t r.members }) w,
      without_member-IsDistinct t r.members,
      count_owners-without_member t r.members m,
    )
  ]

  leave_with-ValidAt :
      (i u j : ℕ) (r : Room) (ms : List Member) (w : World)
      → IsValid w
      → IsValidRoom (record r { members = without_member u ms })
      → ValidAt (find_room j (leave_with i u r ms w).1)
  unfolding leave_with
  leave_with-ValidAt i u j r ms w h v =
      ValidAt-save i j (record r { members = without_member u ms }) w v (h j)

  leave_as_owner-ValidAt :
      (i u j : ℕ) (r : Room) (m : Member) (w : World)
      → IsValid w
      → IsValidRoom r
      → find_member u r.members ≡ some m
      → is_owner m.role ≡ true
      → ValidAt (find_room j (leave_as_owner i u r (with_heir u r.members) w).1)
  unfolding leave_as_owner
  leave_as_owner-ValidAt i u j r m w h v g o = elim (Option-cases (with_heir u r.members)) [
    | inl e ↦ rw e (ground (arith, h j, b.rooms.find_by_id-delete_one i j w.rooms))
    | inr (ps, e) ↦ rw e (
        leave_with-ValidAt i u j r ps w h (
          ground (arith, owner_counts (is_user u) r.members m, with_heir-owner u r.members m ps e)))
  ]

  pub leave_loaded-ValidAt :
      (i u j : ℕ) (r : Room) (w : World)
      → IsValid w
      → IsValidRoom r
      → ValidAt (find_room j (leave_loaded i u r w).1)
  leave_loaded-ValidAt i u j r w h v = elim (Option-cases (find_member u r.members)) [
    | inl g ↦ ground (arith, h j)
    | inr (m, g) ↦ ground (
      arith,
      leave_as_owner-ValidAt i u j r m w h,
      without_member-IsDistinct u r.members,
      count_owners-without_member u r.members m,
      leave_with-ValidAt i u j r r.members w h,
    )
  ]

  pub delete_loaded-ValidAt :
      (i u j : ℕ) (r : Room) (w : World)
      → IsValid w
      → ValidAt (find_room j (delete_loaded i u r w).1)
  delete_loaded-ValidAt i u j r w h = ground (arith, h j, b.rooms.find_by_id-delete_one i j w.rooms)
