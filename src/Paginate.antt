-- ===== src/Paginate.antt =====
-- utils/paginate.js
pub mod Bounds
use node_chat_api.Prelude.{ℕ, ◌+◌, ◌-◌, ◌*◌, ◌/◌, List, zero, suc}
use Prim.Native.Nat.{min, max}

-- `Math.ceil(a / b)` of natural numbers, for b ≥ 1.
abbrev pub ceil_div : ℕ → ℕ → ℕ
ceil_div a b = (a + b - 1) / b

pub record Paginated {ℓ} (A : Type ℓ) : Type ℓ where
  pub items : List A
  pub total : ℕ
  pub page : ℕ
  pub page_size : ℕ
  pub total_pages : ℕ

abbrev pub paginated_response {ℓ} : {A : Type ℓ} → List A → ℕ → ℕ → ℕ → Paginated A
paginated_response items total page page_size = record {
  items = items;
  total = total;
  page = page;
  page_size = page_size;
  total_pages = ceil_div total page_size;
}

pub record Pagination : Type 0 where
  pub page : ℕ
  pub page_size : ℕ
  pub skip : ℕ

-- What `parseInt` makes of a query parameter: not a number, a negative number, or a natural one.
pub data Parsed : Type 0 where
  nan : Parsed
  negative : ℕ → Parsed
  nonneg : ℕ → Parsed

-- `Math.max(1, parsed || default)`
abbrev pub at_least_one : Parsed → ℕ → ℕ
at_least_one nan default = max 1 default
at_least_one (negative _) default = 1
at_least_one (nonneg zero) default = max 1 default
at_least_one (nonneg (suc n)) default = max 1 (suc n)

pub parse_pagination_query : Parsed → Parsed → Pagination
parse_pagination_query page page_size =
    let p : ℕ = at_least_one page 1 in
    let n : ℕ = min 100 (at_least_one page_size 20) in
    record { page = p; page_size = n; skip = (p - 1) * n }
