-- ===== src/Backend/Documents.antt =====
-- The Mongoose calls on a collection whose documents have ids. A filter beside the id is the
-- predicate that it stands for, an update the function on documents.
use node_chat_api.Backend.Recent.{IsRecent}
use node_chat_api.Prelude.{
  filter, any, ◌&&◌, ℕ, ◌≡◌, Option, none, some, List, Bool, true, false, length, ◌==◌,
  if◌then◌else◌,
}

-- `findOne({_id, ...filter})` and `exists({_id, ...filter})`, of what `findById` returns.
abbrev pub matching {ℓ} : {Doc : Type ℓ} → (Doc → Bool) → Option Doc → Option Doc
matching p none = none
matching p (some d) = if p d then some d else none

abbrev pub updated {ℓ} : {Doc : Type ℓ} → (Doc → Bool) → (Doc → Doc) → Option Doc → Option Doc
updated p f none = none
updated p f (some d) = some (if p d then f d else d)

abbrev pub changed {ℓ} : {Doc : Type ℓ} → (Doc → Bool) → (Doc → Doc) → Option Doc → Option Doc
changed p f none = none
changed p f (some d) = if p d then some (f d) else none

-- `find_one_and_update` returns the document after the update (`new: true`), or none if no document
-- matched; `create` fails on a duplicate of a unique field.
-- `clash` tells of two documents that share the value of a unique field.
pub record Collection (Doc : Type 0) (created_at : Doc → ℕ) (clash : Doc → Doc → Bool)
    : Type 1 where
  pub State : Type 0
  pub find_by_id : State → ℕ → Option Doc
  -- `find(filter)` in the order of the index, and sorted by `createdAt`, newest first
  pub find : (Doc → Bool) → State → List Doc
  pub find_recent : (Doc → Bool) → State → List Doc
  pub count_documents : (Doc → Bool) → State → ℕ
  pub find_one : (Doc → Bool) → State → Option Doc
  pub find_one_and_update : ℕ → (Doc → Bool) → (Doc → Doc) → State → Option Doc × State
  pub save : ℕ → Doc → State → State
  pub delete_one : ℕ → State → State
  pub create : ℕ → Doc → State → Option State
  pub find_one_and_update-result :
      (i : ℕ) (p : Doc → Bool) (f : Doc → Doc) (s : State)
      → (find_one_and_update i p f s).0 ≡ changed p f (find_by_id s i)
  pub find_by_id-find_one_and_update :
      (i j : ℕ) (p : Doc → Bool) (f : Doc → Doc) (s : State)
      → find_by_id (find_one_and_update i p f s).1 j
        ≡ (if i == j then updated p f (find_by_id s i) else find_by_id s j)
  pub find_by_id-save :
      (i j : ℕ) (d : Doc) (s : State)
      → find_by_id (save i d s) j ≡ (if i == j then some d else find_by_id s j)
  pub find_by_id-delete_one :
      (i j : ℕ) (s : State)
      → find_by_id (delete_one i s) j ≡ (if i == j then none else find_by_id s j)
  -- the index on `_id` is unique
  pub create-new : (i : ℕ) (d : Doc) (s t : State) → create i d s ≡ some t → find_by_id s i ≡ none
  pub find_by_id-create :
      (i j : ℕ) (d : Doc) (s t : State)
      → create i d s ≡ some t
      → find_by_id t j ≡ (if i == j then some d else find_by_id s j)
  -- the other unique indexes
  pub create-clash :
      (i j : ℕ) (d e : Doc) (s : State)
      → find_by_id s j ≡ some e
      → clash d e ≡ true
      → create i d s ≡ none
  pub count_documents-find_recent :
      (p : Doc → Bool) (s : State) → count_documents p s ≡ length (find_recent p s)
  pub find-any :
      (p q : Doc → Bool) (s : State) (i : ℕ) (d : Doc)
      → find_by_id s i ≡ some d
      → p d ≡ true
      → q d ≡ true
      → any q (find p s) ≡ true
  -- A filter with a further condition keeps the order, which is by time of creation.
  pub find_recent-and :
      (p q : Doc → Bool) (s : State) → find_recent (λ d. p d && q d) s ≡ filter q (find_recent p s)
  pub find_recent-IsRecent : (p : Doc → Bool) (s : State) → IsRecent created_at (find_recent p s)
  pub find_one-holds : (p : Doc → Bool) (s : State) (d : Doc) → find_one p s ≡ some d → p d ≡ true
  pub find_one-none :
      (p : Doc → Bool) (s : State) (i : ℕ) (d : Doc)
      → find_one p s ≡ none
      → find_by_id s i ≡ some d
      → p d ≡ false
  pub find_one-stored :
      (p : Doc → Bool) (s : State) (d : Doc)
      → find_one p s ≡ some d
      → (i : ℕ) × (find_by_id s i ≡ some d)
