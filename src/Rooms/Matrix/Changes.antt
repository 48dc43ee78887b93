-- ===== src/Rooms/Matrix/Changes.antt =====
-- Joining, invites, kicks, changes of a role and deletion, as changes of the matrix of roles.
use node_chat_api.Prelude.{
  ℕ, ◌≡◌, refl, String, Option, none, some, [], ◌∷◌, Bool, false, not, ◌&&◌, is_some, arith, ◌==◌,
  if◌then◌else◌, inl, inr, Option-cases, get_or,
}
use node_chat_api.Models.{group, Room, owner, member}
use node_chat_api.Backend.{Key, Value, invite_json}
use node_chat_api.World.{Backend, World, find_room}
use node_chat_api.Members.{has_member, push_member, without_member, assign_role}
use node_chat_api.Rooms.{
  create_room, insert_room, join_room, join_via_invite, redeem, kick_member, set_member_role,
  assignable, delete_room,
}
use node_chat_api.Rooms.Calls.{Call, create, join, kick, set_role, delete}
use node_chat_api.Rooms.Matrix.{
  role_at, matrix, has_member-role_at, role_at-push_member, role_at-without_member,
  role_at-assign_role,
}
use node_chat_api.Rooms.Matrix.Moves.{Moves, invites_to, succeeds}

module _ ⦃b : Backend⦄ where
  pub join_room-Moves :
      (i u : ℕ) (w : World) → Moves (join i u) w (matrix w) (matrix (join_room i u w).1)
  unfolding Moves join_room
  join_room-Moves i u w j v =
      let p : Room → Bool = λ r. not r.is_private && not (has_member u r.members) in
      let f : Room → Room = λ r. record r { members = push_member u w.now r.members } in
      elim (Option-cases (find_room i w)) [
        | inl e ↦ ground (
          arith,
          b.rooms.find_one_and_update-result i p f w.rooms,
          b.rooms.find_by_id-find_one_and_update i j p f w.rooms,
        )
        | inr (r, e) ↦ ground (
          arith,
          b.rooms.find_one_and_update-result i p f w.rooms,
          b.rooms.find_by_id-find_one_and_update i j p f w.rooms,
          has_member-role_at u r.members,
          role_at-push_member v u w.now r.members,
        )
      ]

  insert_room-matrix :
      (i : ℕ) (r : Room) (w : World) (j v : ℕ)
      → matrix (insert_room i r w).1 j v
        ≡ (if i == j && succeeds (insert_room i r w).0 then role_at v r.members else matrix w j v)
  unfolding insert_room
  insert_room-matrix i r w j v = elim (Option-cases (b.rooms.create i r w.rooms)) [
    | inl e ↦ ground (arith, e)
    | inr (s, e) ↦ ground (arith, e, b.rooms.find_by_id-create i j r w.rooms s)
  ]

  pub create_room-Moves :
      (i u : ℕ) (name : String) (description : Option String) (p : Option Bool) (w : World)
      → Moves
          (create i u name description p)
          w
          (matrix w)
          (matrix (create_room i u name description p w).1)
  unfolding Moves create_room
  create_room-Moves i u name description p w j v =
      let room : Room = record {
        id = i;
        name = b.trim name;
        description = description;
        created_by = u;
        members = (record { user_id = u; role = owner; joined_at = w.now }) ∷ [];
        is_private = get_or p false;
        type = group;
        dm_key = none;
        created_at = w.now;
      } in
      ground (arith, insert_room-matrix i room w j v)

  redeem-Moves :
      (u : ℕ) (x : Option Value) (w : World) (j v : ℕ)
      → matrix (redeem u x w).1 j v ≡ (
          if invites_to j x && u == v && is_some (find_room j w) && not (is_some (matrix w j u))
          then some member
          else matrix w j v)
  unfolding redeem
  redeem-Moves u (some (invite_json i c)) w j v =
      let p : Room → Bool = λ r. not (has_member u r.members) in
      let f : Room → Room = λ r. record r { members = push_member u w.now r.members } in
      elim (Option-cases (find_room i w)) [
        | inl e ↦ ground (
          arith,
          b.rooms.find_one_and_update-result i p f w.rooms,
          b.rooms.find_by_id-find_one_and_update i j p f w.rooms,
        )
        | inr (r, e) ↦ ground (
          arith,
          b.rooms.find_one_and_update-result i p f w.rooms,
          b.rooms.find_by_id-find_one_and_update i j p f w.rooms,
          has_member-role_at u r.members,
          role_at-push_member v u w.now r.members,
        )
      ]
  redeem-Moves u _ w j v = refl

  pub join_via_invite-Moves :
      (t : Option ℕ) (u : ℕ) (w : World)
      → Moves (Call.redeem t u) w (matrix w) (matrix (join_via_invite t u w).1)
  unfolding Moves join_via_invite
  join_via_invite-Moves none u w j v = refl
  join_via_invite-Moves (some t) u w j v =
      let (x, s) = b.redis.getdel w.now (Key.invite t) w.redis in
      ground (
        arith,
        redeem-Moves u x (record w { redis = s }) j v,
        b.redis.getdel-get w.now (Key.invite t) w.redis,
      )

  pub kick_member-Moves :
      (i a t : ℕ) (w : World) → Moves (kick i a t) w (matrix w) (matrix (kick_member i a t w).1)
  unfolding Moves kick_member
  kick_member-Moves i a t w j v = elim (Option-cases (find_room i w)) [
    | inl e ↦ ground arith
    | inr (r, e) ↦ ground (
      arith,
      role_at-without_member v t r.members,
      b.rooms.find_by_id-save i j (record r { members = without_member t r.members }) w.rooms,
    )
  ]

  pub set_member_role-Moves :
      (i a t : ℕ) (name : String) (w : World)
      → Moves (set_role i a t name) w (matrix w) (matrix (set_member_role i a t name w).1)
  unfolding Moves set_member_role
  set_member_role-Moves i a t name w j v = elim (Option-cases (assignable name)) [
    | inl d ↦ ground (arith, d)
    | inr (x, d) ↦ elim (Option-cases (find_room i w)) [
      | inl e ↦ ground (arith, d)
      | inr (r, e) ↦ ground (
        arith,
        d,
        role_at-assign_role v t x r.members,
        b.rooms.find_by_id-save i j (record r { members = assign_role t x r.members }) w.rooms,
      )
    ]
  ]

  pub delete_room-Moves :
      (i u : ℕ) (w : World) → Moves (delete i u) w (matrix w) (matrix (delete_room i u w).1)
  unfolding Moves delete_room
  delete_room-Moves i u w j v = elim (Option-cases (find_room i w)) [
    | inl e ↦ ground arith
    | inr (r, e) ↦ ground (arith, b.rooms.find_by_id-delete_one i j w.rooms)
  ]
