-- ===== src/Rooms/Clock.antt =====
-- The clock under the calls of the room service.
use node_chat_api.Prelude.{
  ℕ, ◌≤◌, ◌≡◌, String, refl, Option, none, some, Bool, arith, inl, inr, Option-cases,
}
use node_chat_api.Backend.{Key, Value, invite_json}
use node_chat_api.World.{Backend, World}
use node_chat_api.Rooms.{
  create_room, insert_room, get_room_by_id, from_cache, create_invite, set_member_role, delete_room,
  assignable, join_room, leave_room, leave_with, leave_as_owner, join_via_invite, redeem,
  kick_member,
}
use node_chat_api.Rooms.Calls.{
  Call, create, get, join, leave, invite, kick, set_role, delete, tick, step,
}

module _ ⦃b : Backend⦄ where
  create_room_clock :
      (i u : ℕ) (name : String) (description : Option String) (p : Option Bool) (w : World)
      → (create_room i u name description p w).1.now ≡ w.now
  unfolding create_room insert_room
  create_room_clock i u name description p w = ground arith

  get_room_by_id_clock : (i : ℕ) (w : World) → (get_room_by_id i w).1.now ≡ w.now
  unfolding get_room_by_id from_cache
  get_room_by_id_clock i w = ground arith

  join_room_clock : (i u : ℕ) (w : World) → (join_room i u w).1.now ≡ w.now
  unfolding join_room
  join_room_clock i u w = ground arith

  leave_room_clock : (i u : ℕ) (w : World) → (leave_room i u w).1.now ≡ w.now
  unfolding leave_room leave_as_owner leave_with
  leave_room_clock i u w = ground arith

  create_invite_clock : (t i u : ℕ) (w : World) → (create_invite t i u w).1.now ≡ w.now
  unfolding create_invite
  create_invite_clock t i u w = ground arith

  kick_member_clock : (i a t : ℕ) (w : World) → (kick_member i a t w).1.now ≡ w.now
  unfolding kick_member
  kick_member_clock i a t w = ground arith

  delete_room_clock : (i u : ℕ) (w : World) → (delete_room i u w).1.now ≡ w.now
  unfolding delete_room
  delete_room_clock i u w = ground arith

  redeem_clock : (u : ℕ) (v : Option Value) (w : World) → (redeem u v w).1.now ≡ w.now
  unfolding redeem
  redeem_clock u (some (invite_json i c)) w = ground arith
  redeem_clock u _ w = refl

  join_via_invite_clock : (t : Option ℕ) (u : ℕ) (w : World) → (join_via_invite t u w).1.now ≡ w.now
  unfolding join_via_invite
  join_via_invite_clock none u w = refl
  join_via_invite_clock (some t) u w =
      let (v, s) = b.redis.getdel w.now (Key.invite t) w.redis in
      redeem_clock u v (record w { redis = s })

  set_member_role_clock :
      (i a t : ℕ) (role : String) (w : World) → (set_member_role i a t role w).1.now ≡ w.now
  unfolding set_member_role
  set_member_role_clock i a t role w = elim (Option-cases (assignable role)) [
    | inl e ↦ ground (arith, e)
    | inr (x, e) ↦ ground (arith, e)
  ]

  pub step_clock : (c : Call) (w : World) → w.now ≤ (step c w).now
  unfolding step
  step_clock (create i u name description p) w =
      omega (arith, create_room_clock i u name description p w)
  step_clock (get i) w = omega (arith, get_room_by_id_clock i w)
  step_clock (join i u) w = omega (arith, join_room_clock i u w)
  step_clock (leave i u) w = omega (arith, leave_room_clock i u w)
  step_clock (invite token i u) w = omega (arith, create_invite_clock token i u w)
  step_clock (Call.redeem token u) w = omega (arith, join_via_invite_clock token u w)
  step_clock (kick i a t) w = omega (arith, kick_member_clock i a t w)
  step_clock (set_role i a t role) w = omega (arith, set_member_role_clock i a t role w)
  step_clock (delete i u) w = omega (arith, delete_room_clock i u w)
  step_clock (tick ms) w = omega arith
