-- ===== src/Rooms/Matrix/Leaving.antt =====
-- Leaving a room, as a change of the matrix of roles: who inherits it.
use node_chat_api.Prelude.{
  ℕ, ◌≡◌, Option, none, some, List, [], ◌∷◌, Bool, true, false, not, ◌&&◌, any, find?, is_some,
  arith, ◌==◌, if◌then◌else◌, inl, inr, Bool-cases, Option-cases, sym,
}
use mathlib.Core.Path.{subst}
use node_chat_api.Models.{Room, Member, Role, owner, is_owner}
use node_chat_api.World.{Backend, World, find_room}
use node_chat_api.Members.{
  find_member, without_member, set_role_first, with_heir, is_other, is_other_admin,
}
use node_chat_api.Rooms.{leave_room, leave_with, leave_as_owner}
use node_chat_api.Rooms.Calls.{leave}
use node_chat_api.Rooms.Roles.{IsDistinct, any→find?}
use node_chat_api.Rooms.Invariant.{IsValid}
use node_chat_api.Rooms.Matrix.{
  role_at, role_in, matrix, role_at-without_member, role_at-set_role_first, role_at_found,
}
use node_chat_api.Rooms.Matrix.Moves.{Moves, IsHeir, is_heir, is_owner_role, is_admin_role}

-- What remains of the members, for each user.
abbrev Remains : Option ℕ → ℕ → List Member → (ℕ → Option Role) → Type 0
Remains h u ms g =
    IsHeir h u (λ v. role_at v ms)
    × ((v : ℕ) → g v ≡ (if u == v then none else if is_heir h v then some owner else role_at v ms))

nobody_else :
    (u v : ℕ) (ms : List Member)
    → any (is_other u) ms ≡ false
    → (not (u == v) && is_some (role_at v ms)) ≡ false
nobody_else u v [] h = ground arith
nobody_else u v (m ∷ ms) h = ground (arith, nobody_else u v ms)

no_other_admin :
    (u v : ℕ) (ms : List Member)
    → any (is_other_admin u) ms ≡ false
    → (is_admin_role (role_at v ms) && not (u == v)) ≡ false
no_other_admin u v [] h = ground arith
no_other_admin u v (m ∷ ms) h = ground (arith, no_other_admin u v ms)

handed_to :
    (p : Member → Bool) (u : ℕ) (ms : List Member) (k : Member)
    → IsDistinct ms
    → find? p ms ≡ some k
    → (v : ℕ)
    → role_at v (without_member u (set_role_first p owner ms))
      ≡ (if u == v then none else if k.user_id == v then some owner else role_at v ms)
handed_to p u ms k d e v = ground (
  arith,
  role_at-without_member v u (set_role_first p owner ms),
  role_at-set_role_first p v owner ms k d e,
)

-- The owner leaves to others.
with_heir-Remains :
    (u : ℕ) (ms ps : List Member)
    → IsDistinct ms
    → is_owner_role (role_at u ms) ≡ true
    → with_heir u ms ≡ some ps
    → (h : Option ℕ) × Remains h u ms (λ v. role_at v (without_member u ps))
with_heir-Remains u ms ps d o e = elim (Bool-cases (any (is_other_admin u) ms)) [
  | inl a ↦
      let (k, f, q) = any→find? (is_other_admin u) ms a in
      (
        some k.user_id,
        (
          (
            o,
            ground arith,
            ground (arith, role_at_found (is_other_admin u) ms k d f),
            (λ v. ground (arith, role_at_found (is_other_admin u) ms k d f)),
          ),
          (λ v. ground (arith, handed_to (is_other_admin u) u ms k d f v)),
        ),
      )
  | inr no_admin ↦ elim (Bool-cases (any (is_other u) ms)) [
    | inl a ↦
        let (k, f, q) = any→find? (is_other u) ms a in
        (
          some k.user_id,
          (
            (
              o,
              ground arith,
              ground (arith, role_at_found (is_other u) ms k d f),
              (λ v. ground (arith, no_other_admin u v ms no_admin)),
            ),
            (λ v. ground (arith, handed_to (is_other u) u ms k d f v)),
          ),
        )
    | inr alone ↦ absurd (ground arith)
  ]
]

module _ ⦃b : Backend⦄ where
  leave_with-matrix :
      (i u : ℕ) (r : Room) (ms : List Member) (w : World) (j v : ℕ)
      → matrix (leave_with i u r ms w).1 j v
        ≡ (if i == j then role_at v (without_member u ms) else matrix w j v)
  unfolding leave_with
  leave_with-matrix i u r ms w j v =
      ground
        (arith, b.rooms.find_by_id-save i j (record r { members = without_member u ms }) w.rooms)

  handed_over-Moves :
      (i u : ℕ) (r : Room) (ps : List Member) (w : World) (h : Option ℕ)
      → find_room i w ≡ some r
      → Remains h u r.members (λ v. role_at v (without_member u ps))
      → Moves (leave i u) w (matrix w) (matrix (leave_with i u r ps w).1)
  unfolding Moves
  handed_over-Moves i u r ps w h e (heir, remains) = (
    h,
    subst (λ o. IsHeir h u (λ v. role_in v o)) (sym e) heir,
    (λ j v. ground (arith, e, leave_with-matrix i u r ps w j v, remains v)),
  )

  leave_room_by_owner :
      (i u : ℕ) (r : Room) (m : Member) (w : World)
      → find_room i w ≡ some r
      → find_member u r.members ≡ some m
      → is_owner m.role ≡ true
      → (leave_room i u w).1 ≡ (leave_as_owner i u r (with_heir u r.members) w).1
  unfolding leave_room
  leave_room_by_owner i u r m w e f o = ground (arith, e, f, o)

  leave_as_owner-Moves :
      (i u : ℕ) (r : Room) (w : World)
      → find_room i w ≡ some r
      → IsDistinct r.members
      → is_owner_role (role_at u r.members) ≡ true
      → Moves (leave i u) w (matrix w) (matrix (leave_as_owner i u r (with_heir u r.members) w).1)
  unfolding Moves leave_as_owner
  leave_as_owner-Moves i u r w e d o = elim (Option-cases (with_heir u r.members)) [
    | inl alone ↦ (
      none,
      (λ v. ground (arith, e, nobody_else u v r.members)),
      (λ j v. rw alone (
          ground
            (arith, e, o, nobody_else u v r.members, b.rooms.find_by_id-delete_one i j w.rooms))),
    )
    | inr (ps, g) ↦
        let (h, (heir, remains)) = with_heir-Remains u r.members ps d o g in
        rw g (handed_over-Moves i u r ps w h e (heir, remains))
  ]

  pub leave_room-Moves :
      (i u : ℕ) (w : World)
      → IsValid w
      → Moves (leave i u) w (matrix w) (matrix (leave_room i u w).1)
  unfolding leave_room Moves
  leave_room-Moves i u w valid = elim (Option-cases (find_room i w)) [
    | inl e ↦ (none, (λ v. ground (arith, e)), (λ j v. ground (arith, e)))
    | inr (r, e) ↦ elim (Option-cases (find_member u r.members)) [
      | inl f ↦ (none, (λ v. ground (arith, e, f)), (λ j v. ground (arith, e, f)))
      | inr (m, f) ↦ elim (Bool-cases (is_owner m.role)) [
        | inl o ↦
            subst (λ s. Moves (leave i u) w (matrix w) (matrix s))
              (sym (leave_room_by_owner i u r m w e f o))
              (leave_as_owner-Moves i u r w e (ground (arith, valid i)) (ground arith))
        | inr o ↦ (
          none,
          (λ v. ground (arith, e, f, o)),
          (λ j v. ground (
            arith,
            e,
            f,
            o,
            leave_with-matrix i u r r.members w j v,
            role_at-without_member v u r.members,
          )),
        )
      ]
    ]
  ]
