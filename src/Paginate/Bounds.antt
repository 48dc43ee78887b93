-- ===== src/Paginate/Bounds.antt =====
-- The bounds of a page, and that the pages cover the items.
use Prim.Native.Nat.{min}
use Prim.Native.Nat.add
use Prim.Native.Nat.mul
use node_chat_api.Prelude.{
  ℕ, zero, suc, ◌+◌, ◌-◌, ◌*◌, ◌≤◌, ◌≡◌, arith, List, [], ◌∷◌, ◌++◌, take, drop, length, refl, ap,
}
use node_chat_api.Paginate.{
  Parsed, nan, negative, nonneg, at_least_one, parse_pagination_query, paginated_response,
}

at_least_one_pos : (p : Parsed) (d : ℕ) → 1 ≤ at_least_one p d
at_least_one_pos nan d = omega arith
at_least_one_pos (negative n) d = omega arith
at_least_one_pos (nonneg zero) d = omega arith
at_least_one_pos (nonneg (suc n)) d = omega arith

skip_add : (q n : ℕ) → 1 ≤ q → (q - 1) * n + n ≡ q * n
skip_add zero n h = absurd (omega arith)
skip_add (suc q) n h = let e : suc q - 1 ≡ q = omega arith in rw e (grind arith)

-- Whatever the query holds, the page is at least 1, the page size between 1 and 100, and the documents
-- skipped are those of the pages before.
pub parse_pagination_query_bounds :
    (page size : Parsed)
    → let p = parse_pagination_query page size in
      (1 ≤ p.page)
      × (1 ≤ p.page_size)
      × (p.page_size ≤ 100)
      × (p.skip + p.page_size ≡ p.page * p.page_size)
unfolding parse_pagination_query
parse_pagination_query_bounds page size = (
  at_least_one_pos page 1,
  omega (arith, at_least_one_pos size 20),
  omega arith,
  skip_add (at_least_one page 1) (min 100 (at_least_one size 20)) (at_least_one_pos page 1),
)

-- `totalPages` pages of a size of at least 1 hold all items, and without the last page they hold fewer,
-- unless there are none.
pub total_pages_exact {ℓ} :
    {A : Type ℓ} (items : List A) (total page size : ℕ)
    → 1 ≤ size
    → let r = paginated_response items total page size in
      (total ≤ r.total_pages * size) × ((r.total_pages - 1) * size ≤ total - 1)
total_pages_exact items total page size h = (ground arith, grind arith)

module _ {ℓ} {A : Type ℓ} where
  -- The pages 1 to k of a list, one after the other.
  abbrev pub pages : ℕ → ℕ → List A → List A
  pages zero n xs = []
  pages (suc k) n xs = pages k n xs ++ take n (drop (k * n) xs)

  take-nil : (n : ℕ) → [] ≡ take {A = A} n []
  take-nil zero = refl
  take-nil (suc n) = refl

  take-add : (m n : ℕ) (xs : List A) → take (m + n) xs ≡ take m xs ++ take n (drop m xs)
  take-add zero n xs = rw (add.zero n)
  take-add (suc m) n [] = rw (add.suc m n) (take-nil n)
  take-add (suc m) n (x ∷ xs) = rw (add.suc m n, take-add m n xs)

  pub pages-eq-take : (k n : ℕ) (xs : List A) → pages k n xs ≡ take (k * n) xs
  pages-eq-take zero n xs = rw (mul.zero n)
  pages-eq-take (suc k) n xs =
      rw (pages-eq-take k n xs, ← take-add (k * n) n xs) (ap (λ (m : ℕ). take m xs) (omega arith))

  pub take_all : (n : ℕ) (xs : List A) → length xs ≤ n → take n xs ≡ xs
  take_all zero [] h = refl
  take_all (suc n) [] h = refl
  take_all zero (x ∷ xs) h = absurd (omega arith)
  take_all (suc n) (x ∷ xs) h = rw (take_all n xs (omega arith))
