-- ===== src/Rooms/Roles.antt =====
-- The member array: distinct users, number of owners, and what each change does to both.
use node_chat_api.Prelude.{
  ℕ, ◌+◌, ◌≡◌, refl, none, some, List, [], ◌∷◌, Bool, true, false, not, ◌&&◌, ◌||◌, any, find?,
  length, arith, ◌==◌, if◌then◌else◌, inl, inr, Bool-cases,
}
use node_chat_api.Models.{Member, Role, is_owner}
use node_chat_api.Members.{find_member, has_member, push_member, without_member, set_role_first}

abbrev pub count_owners : List Member → ℕ
count_owners [] = 0
count_owners (m ∷ ms) = (if is_owner m.role then 1 else 0) + count_owners ms

-- No user is listed twice.
abbrev pub IsDistinct : List Member → Type 0
IsDistinct [] = Unit
IsDistinct (m ∷ ms) = (has_member m.user_id ms ≡ false) × IsDistinct ms

pub has_member-push_member :
    (v u now : ℕ) (ms : List Member)
    → has_member v (push_member u now ms) ≡ (has_member v ms || (u == v))
has_member-push_member v u now [] = ground arith
has_member-push_member v u now (m ∷ ms) = ground (arith, has_member-push_member v u now ms)

pub push_member-IsDistinct :
    (u now : ℕ) (ms : List Member)
    → has_member u ms ≡ false
    → IsDistinct ms
    → IsDistinct (push_member u now ms)
push_member-IsDistinct u now [] h d = ground arith
push_member-IsDistinct u now (m ∷ ms) h d =
    ground (arith, has_member-push_member m.user_id u now ms, push_member-IsDistinct u now ms)

pub count_owners-push_member :
    (u now : ℕ) (ms : List Member) → count_owners (push_member u now ms) ≡ count_owners ms
count_owners-push_member u now [] = ground arith
count_owners-push_member u now (m ∷ ms) = ground (arith, count_owners-push_member u now ms)

pub has_member-without_member :
    (v u : ℕ) (ms : List Member)
    → has_member v (without_member u ms) ≡ (not (u == v) && has_member v ms)
has_member-without_member v u [] = ground arith
has_member-without_member v u (m ∷ ms) = ground (arith, has_member-without_member v u ms)

pub without_member-IsDistinct :
    (u : ℕ) (ms : List Member) → IsDistinct ms → IsDistinct (without_member u ms)
without_member-IsDistinct u [] d = tt
without_member-IsDistinct u (m ∷ ms) d =
    ground (arith, has_member-without_member m.user_id u ms, without_member-IsDistinct u ms)

-- Removing a user who is not there changes nothing.
pub without_member_absent :
    (u : ℕ) (ms : List Member) → has_member u ms ≡ false → without_member u ms ≡ ms
without_member_absent u [] h = refl
without_member_absent u (m ∷ ms) h = ground (arith, without_member_absent u ms)

pub find_member_absent :
    (u : ℕ) (ms : List Member) → has_member u ms ≡ false → find_member u ms ≡ none
find_member_absent u [] h = refl
find_member_absent u (m ∷ ms) h = ground (arith, find_member_absent u ms)

pub has_member_of_find :
    (u : ℕ) (ms : List Member) (m : Member) → find_member u ms ≡ some m → has_member u ms ≡ true
has_member_of_find u [] m h = cc
has_member_of_find u (x ∷ ms) m h = ground (arith, has_member_of_find u ms m)

pub user_id_of_find :
    (u : ℕ) (ms : List Member) (m : Member) → find_member u ms ≡ some m → m.user_id ≡ u
user_id_of_find u [] m h = cc
user_id_of_find u (x ∷ ms) m h = ground (arith, user_id_of_find u ms m)

-- Removing a user takes away the owners that this user counts for.
pub count_owners-without_member :
    (u : ℕ) (ms : List Member) (m : Member)
    → IsDistinct ms
    → find_member u ms ≡ some m
    → count_owners (without_member u ms) + (if is_owner m.role then 1 else 0) ≡ count_owners ms
count_owners-without_member u [] m d h = cc
count_owners-without_member u (x ∷ ms) m d h =
    ground (arith, count_owners-without_member u ms m d.1, without_member_absent u ms)

module _ (p : Member → Bool) (role : Role) where
  pub has_member-set_role_first :
      (v : ℕ) (ms : List Member) → has_member v (set_role_first p role ms) ≡ has_member v ms
  has_member-set_role_first v [] = refl
  has_member-set_role_first v (m ∷ ms) = ground (arith, has_member-set_role_first v ms)

  pub set_role_first-IsDistinct :
      (ms : List Member) → IsDistinct ms → IsDistinct (set_role_first p role ms)
  set_role_first-IsDistinct [] d = tt
  set_role_first-IsDistinct (m ∷ ms) d =
      ground (arith, has_member-set_role_first m.user_id ms, set_role_first-IsDistinct ms)

  pub length-set_role_first : (ms : List Member) → length (set_role_first p role ms) ≡ length ms
  length-set_role_first [] = refl
  length-set_role_first (m ∷ ms) = ground (arith, length-set_role_first ms)

  -- The number of owners after the first match has its new role.
  pub count_owners-set_role_first :
      (ms : List Member) (m : Member)
      → find? p ms ≡ some m
      → count_owners (set_role_first p role ms) + (if is_owner m.role then 1 else 0)
        ≡ count_owners ms + (if is_owner role then 1 else 0)
  count_owners-set_role_first [] m h = cc
  count_owners-set_role_first (x ∷ ms) m h = ground (arith, count_owners-set_role_first ms m)

pub any→find? {ℓ} :
    {A : Type ℓ} (p : A → Bool) (xs : List A)
    → any p xs ≡ true
    → (x : A) × (find? p xs ≡ some x) × (p x ≡ true)
any→find? p [] h = cc
any→find? p (x ∷ xs) h = elim (Bool-cases (p x)) [
  | inl found ↦ (x, ground arith, found)
  | inr later ↦ let (y, e, q) = any→find? p xs (ground arith) in (y, ground arith, q)
]
