-- ===== src/Rooms/Authority.antt =====
-- What a successful kick, change of role or deletion says about the members involved.
use node_chat_api.Prelude.{
  ℕ, ◌≡◌, String, some, false, ◌&&◌, arith, inl, inr, ◌==◌, leb, Option-cases, if◌then◌else◌,
}
use node_chat_api.Action.{ok}
use node_chat_api.Models.{Room, Member, Role, RoomResponse, role_rank, is_owner, is_admin}
use node_chat_api.World.{Backend, World, find_room}
use node_chat_api.Members.{find_member, without_member, assign_role}
use node_chat_api.Rooms.{kick_member, set_member_role, assignable}

module _ ⦃b : Backend⦄ where
  -- The room, and the entries of the actor and of the target.
  pub record Party (i a t : ℕ) (w : World) : Type 0 where
    pub room : Room
    pub actor : Member
    pub target : Member
    pub stored : find_room i w ≡ some room
    pub acts : find_member a room.members ≡ some actor
    pub hit : find_member t room.members ≡ some target
    pub not_owner : is_owner target.role ≡ false

  pub kick_member-Party :
      (i a t : ℕ) (w : World) (x : RoomResponse) → (kick_member i a t w).0 ≡ ok x → Party i a t w
  unfolding kick_member
  kick_member-Party i a t w x h = elim (Option-cases (find_room i w)) [
    | inl e ↦ absurd (ground arith)
    | inr (r, e) ↦ elim (Option-cases (find_member a r.members)) [
      | inl f ↦ absurd (ground arith)
      | inr (m, f) ↦ elim (Option-cases (find_member t r.members)) [
        | inl g ↦ absurd (ground arith)
        | inr (k, g) ↦ record {
          room = r;
          actor = m;
          target = k;
          stored = e;
          acts = f;
          hit = g;
          not_owner = ground arith;
        }
      ]
    ]
  ]

  -- A kick that returns
  pub kick_member_effect :
      (i a t : ℕ) (w : World) (x : RoomResponse)
      → (p : Party i a t w) → (kick_member i a t w).0 ≡ ok x
      → ((is_admin p.actor.role && leb 2 (role_rank p.target.role)) ≡ false)
        × ((j : ℕ)
            → find_room j (kick_member i a t w).1 ≡ (
                if i == j
                then some (record p.room { members = without_member t p.room.members })
                else find_room j w))
  unfolding kick_member
  kick_member_effect i a t w x p h =
      let r : Room = p.room in
      let e : find_room i w ≡ some r = p.stored in
      let f : find_member a r.members ≡ some p.actor = p.acts in
      let g : find_member t r.members ≡ some p.target = p.hit in
      (
        ground arith,
        (λ j. ground (
          arith,
          b.rooms.find_by_id-save i j (record r { members = without_member t r.members }) w.rooms,
        )),
      )

  pub set_member_role-Party :
      (i a t : ℕ) (name : String) (w : World) (x : RoomResponse)
      → (set_member_role i a t name w).0 ≡ ok x
      → (role : Role) × (assignable name ≡ some role) × Party i a t w
  unfolding set_member_role
  set_member_role-Party i a t name w x h = elim (Option-cases (assignable name)) [
    | inl d ↦ absurd (ground arith)
    | inr (role, d) ↦ elim (Option-cases (find_room i w)) [
      | inl e ↦ absurd (ground arith)
      | inr (r, e) ↦ elim (Option-cases (find_member a r.members)) [
        | inl f ↦ absurd (ground arith)
        | inr (m, f) ↦ elim (Option-cases (find_member t r.members)) [
          | inl g ↦ absurd (ground arith)
          | inr (k, g) ↦ (
            role,
            d,
            record {
              room = r;
              actor = m;
              target = k;
              stored = e;
              acts = f;
              hit = g;
              not_owner = ground arith;
            },
          )
        ]
      ]
    ]
  ]

  pub set_member_role_effect :
      (i a t : ℕ) (name : String) (role : Role) (w : World) (x : RoomResponse)
      → assignable name ≡ some role
      → (p : Party i a t w) → (set_member_role i a t name w).0 ≡ ok x
      → ((is_admin p.actor.role && is_admin role) ≡ false)
        × (is_owner role ≡ false)
        × ((j : ℕ)
            → find_room j (set_member_role i a t name w).1 ≡ (
                if i == j
                then some (record p.room { members = assign_role t role p.room.members })
                else find_room j w))
  unfolding set_member_role
  set_member_role_effect i a t name role w x d p h =
      let r : Room = p.room in
      let e : find_room i w ≡ some r = p.stored in
      let f : find_member a r.members ≡ some p.actor = p.acts in
      let g : find_member t r.members ≡ some p.target = p.hit in
      (
        ground arith,
        ground arith,
        (λ j. ground (
          arith,
          b.rooms.find_by_id-save i j (record r { members = assign_role t role r.members }) w.rooms,
        )),
      )
