-- ===== src/Rooms/Invariant.antt =====
-- Rooms list nobody twice and have one owner, or none for a DM, after any calls.
use node_chat_api.Prelude.{
  ℕ, ◌≡◌, Option, none, some, List, Bool, true, false, not, ◌&&◌, inl, inr, arith, String,
  Option-cases,
}
use node_chat_api.Models.{Room, Role, is_owner}
use node_chat_api.Backend.{Value, invite_json}
use node_chat_api.World.{Backend, World, find_room}
use node_chat_api.Members.{is_user, find_member, has_member, push_member, assign_role}
use node_chat_api.Rooms.Roles.{
  push_member-IsDistinct, count_owners-push_member, set_role_first-IsDistinct,
  count_owners-set_role_first,
}
pub use node_chat_api.Rooms.Valid.{
  owners_of, IsValidRoom, ValidAt, IsValid, ValidAt-save, kick_loaded-ValidAt, leave_loaded-ValidAt,
  delete_loaded-ValidAt,
}
use node_chat_api.Rooms.{
  join_room, kick_member, set_member_role, leave_room, create_room, delete_room, join_via_invite,
  redeem, assignable, insert_room, get_room_by_id, from_cache, create_invite,
}
use node_chat_api.Rooms.Calls.{
  Call, create, get, join, leave, invite, kick, set_role, delete, tick, step, run_calls,
  run_calls_induction,
}

module _ ⦃b : Backend⦄ where
  -- A loaded room is a valid one.
  ValidAt-update :
      (i j : ℕ) (p : Room → Bool) (f : Room → Room) (w : World)
      → ((r : Room) → p r ≡ true → IsValidRoom r → IsValidRoom (f r))
      → IsValid w
      → ValidAt (b.rooms.find_by_id (b.rooms.find_one_and_update i p f w.rooms).1 j)
  ValidAt-update i j p f w keep h =
      rw b.rooms.find_by_id-find_one_and_update (elim (Option-cases (find_room i w)) [
        | inl e ↦ ground (arith, h j)
        | inr (r, e) ↦ ground (arith, h i, h j, keep r)
      ])

  push-IsValidRoom :
      (u now : ℕ) (r : Room)
      → has_member u r.members ≡ false
      → IsValidRoom r
      → IsValidRoom (record r { members = push_member u now r.members })
  push-IsValidRoom u now r absent v =
      ground
        (arith, push_member-IsDistinct u now r.members, count_owners-push_member u now r.members)

  join_room-IsValid : (i u : ℕ) (w : World) → IsValid w → IsValid (join_room i u w).1
  unfolding join_room
  join_room-IsValid i u w h j = ground (
    arith,
    ValidAt-update i j (λ r. not r.is_private && not (has_member u r.members))
        (λ r. record r { members = push_member u w.now r.members }) w
        (λ r p v. push-IsValidRoom u w.now r (ground arith) v) h,
  )

  redeem-IsValid : (u : ℕ) (v : Option Value) (w : World) → IsValid w → IsValid (redeem u v w).1
  unfolding redeem
  redeem-IsValid u (some (invite_json i c)) w h j = ground (
    arith,
    ValidAt-update i j (λ r. not (has_member u r.members))
        (λ r. record r { members = push_member u w.now r.members }) w
        (λ r p v. push-IsValidRoom u w.now r (ground arith) v) h,
  )
  redeem-IsValid u _ w h j = h j

  join_via_invite-IsValid :
      (t : Option ℕ) (u : ℕ) (w : World) → IsValid w → IsValid (join_via_invite t u w).1
  unfolding join_via_invite
  join_via_invite-IsValid none u w h j = h j
  join_via_invite-IsValid (some t) u w h j = redeem-IsValid u _ _ h j

  kick_member-IsValid : (i a t : ℕ) (w : World) → IsValid w → IsValid (kick_member i a t w).1
  unfolding kick_member
  kick_member-IsValid i a t w h j = elim (Option-cases (find_room i w)) [
    | inl e ↦ ground (arith, h j)
    | inr (r, e) ↦ ground (arith, h i, kick_loaded-ValidAt i a t j r w h)
  ]

  assignable_not_owner : (name : String) (x : Role) → assignable name ≡ some x → is_owner x ≡ false
  assignable_not_owner name x e = ground arith

  set_member_role-IsValid :
      (i a t : ℕ) (name : String) (w : World) → IsValid w → IsValid (set_member_role i a t name w).1
  unfolding set_member_role
  set_member_role-IsValid i a t name w h j = elim (Option-cases (find_room i w)) [
    | inl e ↦ ground (arith, h j)
    | inr (r, e) ↦ elim (Option-cases (assignable name)) [
      | inl bad ↦ ground (arith, h j)
      | inr (x, q) ↦ elim (Option-cases (find_member t r.members)) [
        | inl g ↦ ground (arith, h j)
        | inr (m, g) ↦ ground (
          arith,
          h i,
          h j,
          ValidAt-save i j (record r { members = assign_role t x r.members }) w,
          set_role_first-IsDistinct (is_user t) x r.members,
          count_owners-set_role_first (is_user t) x r.members m,
          assignable_not_owner name x q,
        )
      ]
    ]
  ]

  leave_room-IsValid : (i u : ℕ) (w : World) → IsValid w → IsValid (leave_room i u w).1
  unfolding leave_room
  leave_room-IsValid i u w h j = elim (Option-cases (find_room i w)) [
    | inl e ↦ ground (arith, h j)
    | inr (r, e) ↦ ground (arith, h i, leave_loaded-ValidAt i u j r w h)
  ]

  insert_room-IsValid :
      (i : ℕ) (r : Room) (w : World) → IsValidRoom r → IsValid w → IsValid (insert_room i r w).1
  unfolding insert_room
  insert_room-IsValid i r w v h j = elim (Option-cases (b.rooms.create i r w.rooms)) [
    | inl e ↦ ground (arith, h j)
    | inr (s, e) ↦ ground (arith, h j, b.rooms.find_by_id-create i j r w.rooms s)
  ]

  create_room-IsValid :
      (i u : ℕ) (name : String) (description : Option String) (p : Option Bool) (w : World)
      → IsValid w
      → IsValid (create_room i u name description p w).1
  unfolding create_room
  create_room-IsValid i u name description p w h = insert_room-IsValid i _ w (ground arith) h

  delete_room-IsValid : (i u : ℕ) (w : World) → IsValid w → IsValid (delete_room i u w).1
  unfolding delete_room
  delete_room-IsValid i u w h j = elim (Option-cases (find_room i w)) [
    | inl e ↦ ground (arith, h j)
    | inr (r, e) ↦ ground (arith, delete_loaded-ValidAt i u j r w h)
  ]

  get_room_by_id-IsValid : (i : ℕ) (w : World) → IsValid w → IsValid (get_room_by_id i w).1
  unfolding get_room_by_id from_cache
  get_room_by_id-IsValid i w h j = ground (arith, h j)

  create_invite-IsValid :
      (token i u : ℕ) (w : World) → IsValid w → IsValid (create_invite token i u w).1
  unfolding create_invite
  create_invite-IsValid token i u w h j = ground (arith, h j)

  pub step-IsValid : (c : Call) (w : World) → IsValid w → IsValid (step c w)
  unfolding step
  step-IsValid (create i u name description p) w h = create_room-IsValid i u name description p w h
  step-IsValid (get i) w h = get_room_by_id-IsValid i w h
  step-IsValid (join i u) w h = join_room-IsValid i u w h
  step-IsValid (leave i u) w h = leave_room-IsValid i u w h
  step-IsValid (invite token i u) w h = create_invite-IsValid token i u w h
  step-IsValid (Call.redeem token u) w h = join_via_invite-IsValid token u w h
  step-IsValid (kick i a t) w h = kick_member-IsValid i a t w h
  step-IsValid (set_role i a t role) w h = set_member_role-IsValid i a t role w h
  step-IsValid (delete i u) w h = delete_room-IsValid i u w h
  step-IsValid (tick ms) w h = h

  -- From a state in which every room lists nobody twice, every group room has exactly one owner and
  -- every DM none, any sequence of calls of the room service, failing or not, leads to such a state.
  pub run_calls-IsValid : (cs : List Call) (w : World) → IsValid w → IsValid (run_calls cs w)
  run_calls-IsValid = run_calls_induction IsValid step-IsValid
