-- ===== src/Rooms/Heir.antt =====
-- The hand-over of a leaving owner: who becomes owner, and the number of owners after the owner left.
use node_chat_api.Prelude.{
  ℕ, ◌≤◌, ◌≡◌, refl, some, List, [], ◌∷◌, Bool, true, false, any, find?, arith, ◌==◌, inl, inr,
  Bool-cases,
}
use node_chat_api.Models.{Member, owner, is_owner}
use node_chat_api.Members.{
  is_user, is_other, is_other_admin, find_member, without_member, set_role_first, with_heir,
}
use node_chat_api.Rooms.Roles.{
  IsDistinct, count_owners, without_member-IsDistinct, count_owners-without_member,
  set_role_first-IsDistinct, count_owners-set_role_first, any→find?,
}

pub owner_counts :
    (p : Member → Bool) (ms : List Member) (m : Member)
    → find? p ms ≡ some m
    → is_owner m.role ≡ true
    → 1 ≤ count_owners ms
owner_counts p [] m h o = cc
owner_counts p (x ∷ ms) m h o = ground (arith, owner_counts p ms m)

two_owners :
    (u : ℕ) (p : Member → Bool) (ms : List Member) (m k : Member)
    → find_member u ms ≡ some m
    → find? p ms ≡ some k
    → (k.user_id == u) ≡ false
    → is_owner m.role ≡ true
    → is_owner k.role ≡ true
    → 2 ≤ count_owners ms
two_owners u p [] m k h g ne o q = cc
two_owners u p (x ∷ ms) m k h g ne o q =
    ground (arith, two_owners u p ms m k, owner_counts (is_user u) ms m, owner_counts p ms k)

find_member-set_role_first :
    (u : ℕ) (p : Member → Bool) (ms : List Member)
    → ((x : Member) → p x ≡ true → (x.user_id == u) ≡ false)
    → find_member u (set_role_first p owner ms) ≡ find_member u ms
find_member-set_role_first u p [] h = refl
find_member-set_role_first u p (x ∷ ms) h = ground (arith, h x, find_member-set_role_first u p ms h)

module _ (u : ℕ) (ms : List Member) (m : Member) where
  -- After the first match of `p` became owner, the old owner can go.
  handed_over :
      (p : Member → Bool)
      → ((x : Member) → p x ≡ true → (x.user_id == u) ≡ false)
      → any p ms ≡ true
      → IsDistinct ms
      → find_member u ms ≡ some m
      → is_owner m.role ≡ true
      → count_owners ms ≡ 1
      → IsDistinct (without_member u (set_role_first p owner ms))
        × (count_owners (without_member u (set_role_first p owner ms)) ≡ 1)
  handed_over p other some_other d h o one =
      let (k, g, q) = any→find? p ms some_other in
      (
        without_member-IsDistinct u (set_role_first p owner ms)
            (set_role_first-IsDistinct p owner ms d),
        ground (
          arith,
          other k q,
          two_owners u p ms m k h g,
          find_member-set_role_first u p ms other,
          set_role_first-IsDistinct p owner ms d,
          count_owners-set_role_first p owner ms k g,
          count_owners-without_member u (set_role_first p owner ms) m,
        ),
      )

  pub with_heir-owner :
      (ps : List Member)
      → with_heir u ms ≡ some ps
      → IsDistinct ms
      → find_member u ms ≡ some m
      → is_owner m.role ≡ true
      → count_owners ms ≡ 1
      → IsDistinct (without_member u ps) × (count_owners (without_member u ps) ≡ 1)
  with_heir-owner ps e d h o one = elim (Bool-cases (any (is_other_admin u) ms)) [
    | inl a ↦ ground (arith, handed_over (is_other_admin u) (λ x q. ground arith) a d h o one)
    | inr no_admin ↦ elim (Bool-cases (any (is_other u) ms)) [
      | inl a ↦ ground (arith, handed_over (is_other u) (λ x q. ground arith) a d h o one)
      | inr alone ↦ ground arith
    ]
  ]
