-- ===== src/MessageLimit/Tally.antt =====
-- How many items of a sorted set pass a test, whatever their order.
use node_chat_api.Prelude.{
  ℕ, ◌+◌, ◌≡◌, List, [], ◌∷◌, Bool, true, not, ◌&&◌, filter, length, arith, refl, if◌then◌else◌,
}
use node_chat_api.Backend.{ZMember, placed}

abbrev pub Item : Type 0
Item = ZMember × ℕ

module _ {A : Type 0} where
  abbrev pub tally : (A → Bool) → List A → ℕ
  tally p [] = 0
  tally p (x ∷ xs) = (if p x then 1 else 0) + tally p xs

  pub tally-filter :
      (p q : A → Bool) (xs : List A) → tally p (filter q xs) ≡ tally (λ x. p x && q x) xs
  tally-filter p q [] = refl
  tally-filter p q (x ∷ xs) = ground (arith, tally-filter p q xs)

  -- What a filter left passes its test.
  pub tally-filter_self :
      (p q r : A → Bool) (xs : List A)
      → tally p (filter r (filter q xs)) ≡ tally (λ x. p x && q x) (filter r (filter q xs))
  tally-filter_self p q r [] = refl
  tally-filter_self p q r (x ∷ xs) = ground (arith, tally-filter_self p q r xs)

  pub length-tally : (xs : List A) → length xs ≡ tally (λ _. true) xs
  length-tally [] = refl
  length-tally (x ∷ xs) = omega (arith, length-tally xs)

  -- Two tests that agree on every item.
  pub tally_congr : (p q : A → Bool) (xs : List A) → ((x : A) → p x ≡ q x) → tally p xs ≡ tally q xs
  tally_congr p q [] h = refl
  tally_congr p q (x ∷ xs) h = ground (arith, h x, tally_congr p q xs h)

  pub tally_split :
      (p q : A → Bool) (xs : List A)
      → tally (λ x. p x && not (q x)) xs + tally (λ x. p x && q x) xs ≡ tally p xs
  tally_split p q [] = refl
  tally_split p q (x ∷ xs) = ground (arith, tally_split p q xs)

  pub tally_none : (p q : A → Bool) (xs : List A) → tally q xs ≡ 0 → tally (λ x. p x && q x) xs ≡ 0
  tally_none p q [] h = refl
  tally_none p q (x ∷ xs) h = ground (arith, tally_none p q xs)

pub tally-placed :
    (before : ZMember → ZMember → Bool) (p : Item → Bool) (x : Item) (xs : List Item)
    → tally p (placed before x xs) ≡ (if p x then 1 else 0) + tally p xs
tally-placed before p x [] = refl
tally-placed before p x (y ∷ ys) = ground (arith, tally-placed before p x ys)
