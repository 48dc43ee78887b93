-- ===== src/Backend/Memory.antt =====
-- A backend in memory: association lists that meet the documented behaviour of both stores. Witnesses
-- and tests run on it.
use node_chat_api.Backend.Recent.{sort_recent, sort_recent-filter, sort_recent-IsRecent}
use node_chat_api.Prelude.{
  ap, ◌∙◌, filter-and, ℕ, ◌+◌, ◌*◌, ◌≡◌, ◌↔◌, refl, Option, none, some, List, [], ◌∷◌, ◌++◌, Bool,
  true, false, is_some, map, filter, length, any, arith, inl, inr, Bool-cases, ◌==◌, if◌then◌else◌,
  ==_iff,
}
use node_chat_api.Backend.Keys.{Key, key_eq, key_eq_iff, Entry}
use node_chat_api.Backend.Commands.{Redis, live, counted, bumped, expiring, is_refresh_of, lists}
use node_chat_api.Backend.Documents.{Collection, matching, updated, changed}

-- Entries under keys with a Boolean equality; a write puts its entry in front.
module _ {K V : Type 0} (eq : K → K → Bool) where
  abbrev pub lookup : K → List (K × V) → Option V
  lookup k [] = none
  lookup k ((j, v) ∷ l) = if eq j k then some v else lookup k l

  abbrev pub remove : K → List (K × V) → List (K × V)
  remove k [] = []
  remove k ((j, v) ∷ l) = let rest = remove k l in if eq j k then rest else (j, v) ∷ rest

  abbrev pub put : K → Option V → List (K × V) → List (K × V)
  put k none l = remove k l
  put k (some v) l = (k, v) ∷ remove k l

module _ {K V : Type 0} (eq : K → K → Bool) (iff : (k j : K) → (eq k j ≡ true) ↔ (k ≡ j)) where
  pub lookup-remove :
      (k j : K) (l : List (K × V))
      → lookup eq j (remove eq k l) ≡ (if eq k j then none else lookup eq j l)
  lookup-remove k j [] = ground arith
  lookup-remove k j ((i, v) ∷ l) = ground (arith, lookup-remove k j l, iff k j, iff i k, iff i j)

  pub lookup-put :
      (k j : K) (o : Option V) (l : List (K × V))
      → lookup eq j (put eq k o l) ≡ (if eq k j then o else lookup eq j l)
  lookup-put k j none l = lookup-remove k j l
  lookup-put k j (some v) l = ground (arith, lookup-remove k j l, iff k j)

abbrev Keyspace : Type 0
Keyspace = List (Key × Entry)

abbrev entry_of : Keyspace → Key → Option Entry
entry_of s k = lookup key_eq k s

abbrev write : Key → Option Entry → Keyspace → Keyspace
write k e s = put key_eq k e s

pub entry_of-write :
    (k j : Key) (e : Option Entry) (s : Keyspace)
    → entry_of (write k e s) j ≡ (if key_eq k j then e else entry_of s j)
entry_of-write k j e s = lookup-put key_eq key_eq_iff k j e s

abbrev refresh_keys : ℕ → Keyspace → List Key
refresh_keys u s = filter (is_refresh_of u) (map (λ e. e.0) s)

pub refresh_keys_complete :
    (u : ℕ) (s : Keyspace) (k : Key)
    → is_refresh_of u k ≡ true
    → is_some (entry_of s k) ≡ true
    → lists (refresh_keys u s ++ []) k ≡ true
refresh_keys_complete u [] k m h = cc
refresh_keys_complete u ((j, e) ∷ s) k m h =
    ground (arith, refresh_keys_complete u s k m, key_eq_iff j k)

pub refresh_keys_sound :
    (u : ℕ) (s : Keyspace) (k : Key)
    → lists (refresh_keys u s ++ []) k ≡ true
    → is_refresh_of u k ≡ true
refresh_keys_sound u [] k h = cc
refresh_keys_sound u ((j, e) ∷ s) k h = ground (arith, refresh_keys_sound u s k, key_eq_iff j k)

abbrev pub memory_redis : Redis
memory_redis = record {
  State = Keyspace;
  entry = entry_of;
  get = λ now k s. live now (entry_of s k);
  set = λ k v s. write k (some (record { value = v; expires = none })) s;
  set_ex =
      λ now k v ttl s. write k (some (record { value = v; expires = some (now + ttl * 1000) })) s;
  del = λ k s. write k none s;
  getdel = λ now k s. (live now (entry_of s k), write k none s);
  incr = λ now k s. (counted (live now (entry_of s k)), write k (bumped now (entry_of s k)) s);
  expire = λ now k ttl s. write k (expiring now ttl (live now (entry_of s k))) s;
  scan_refresh = λ u c s. (0, refresh_keys u s);
  get-entry = λ now k s. refl;
  entry-set = λ k j v s. entry_of-write k j _ s;
  entry-set_ex = λ now ttl k j v s. entry_of-write k j _ s;
  entry-del = λ k j s. entry_of-write k j none s;
  getdel-get = λ now k s. refl;
  getdel-del = λ now k s. refl;
  incr-get = λ now k s. refl;
  entry-incr = λ now k j s. entry_of-write k j _ s;
  entry-expire = λ now ttl k j s. entry_of-write k j _ s;
  scan_refresh-complete = λ u s. (
    refresh_keys u s ∷ [],
    (refl, refl),
    (λ k m h. refresh_keys_complete u s k m h),
    (λ k h. refresh_keys_sound u s k h),
  );
}

-- A collection over the time of creation of its documents and their clashes on unique fields.
module _ {Doc : Type 0} (time : Doc → ℕ) (clash : Doc → Doc → Bool) where
  abbrev Docs : Type 0
  Docs = List (ℕ × Doc)

  abbrev docs : Docs → List Doc
  docs s = map (λ e. e.1) s

  abbrev doc_of : Docs → ℕ → Option Doc
  doc_of s i = lookup ◌==◌ i s

  abbrev write_doc : ℕ → Option Doc → Docs → Docs
  write_doc i d s = put ◌==◌ i d s

  pub doc_of-write_doc :
      (i j : ℕ) (d : Option Doc) (s : Docs)
      → doc_of (write_doc i d s) j ≡ (if i == j then d else doc_of s j)
  doc_of-write_doc i j d s = lookup-put ◌==◌ ==_iff i j d s

  abbrev update_doc : ℕ → Option Doc → Docs → Option Doc × Docs
  update_doc i none s = (none, s)
  update_doc i (some d) s = (some d, write_doc i (some d) s)

  pub doc_of-update_doc :
      (i j : ℕ) (p : Doc → Bool) (f : Doc → Doc) (s : Docs) (o : Option Doc)
      → doc_of s i ≡ o
      → doc_of (update_doc i (changed p f o) s).1 j ≡ (if i == j then updated p f o else doc_of s j)
  doc_of-update_doc i j p f s none e = ground (arith, e)
  doc_of-update_doc i j p f s (some d) e = ground (arith, doc_of-write_doc i j (some (f d)) s, e)

  pub update_doc-result : (i : ℕ) (o : Option Doc) (s : Docs) → (update_doc i o s).0 ≡ o
  update_doc-result i none s = refl
  update_doc-result i (some d) s = refl

  abbrev create_doc : ℕ → Doc → Docs → Option Docs
  create_doc i d s = elim (doc_of s i) [
    | some _ ↦ none
    | none ↦ if any (λ e. clash d e.1) s then none else some ((i, d) ∷ s)
  ]

  pub create_doc-new :
      (i : ℕ) (d : Doc) (s t : Docs) → create_doc i d s ≡ some t → doc_of s i ≡ none
  create_doc-new i d s t e = ground arith

  pub doc_of-create_doc :
      (i j : ℕ) (d : Doc) (s t : Docs)
      → create_doc i d s ≡ some t
      → doc_of t j ≡ (if i == j then some d else doc_of s j)
  doc_of-create_doc i j d s t e = ground arith

  any_clash :
      (j : ℕ) (d e : Doc) (s : Docs)
      → doc_of s j ≡ some e
      → clash d e ≡ true
      → any (λ x. clash d x.1) s ≡ true
  any_clash j d e [] h c = cc
  any_clash j d e ((i, x) ∷ s) h c = ground (arith, any_clash j d e s)

  pub create_doc-clash :
      (i j : ℕ) (d e : Doc) (s : Docs)
      → doc_of s j ≡ some e
      → clash d e ≡ true
      → create_doc i d s ≡ none
  create_doc-clash i j d e s h c = ground (arith, any_clash j d e s h c)

  pub find-any-docs :
      (p q : Doc → Bool) (s : Docs) (i : ℕ) (d : Doc)
      → doc_of s i ≡ some d
      → p d ≡ true
      → q d ≡ true
      → any q (filter p (docs s)) ≡ true
  find-any-docs p q [] i d e f g = cc
  find-any-docs p q ((j, x) ∷ s) i d e f g = ground (arith, find-any-docs p q s i d)

  -- The first of the entries whose document, under its id, matches.
  abbrev first_doc : (Doc → Bool) → Docs → Docs → Option Doc
  first_doc p s [] = none
  first_doc p s ((j, x) ∷ l) =
      let rest = first_doc p s l in if is_some (matching p (doc_of s j)) then doc_of s j else rest

  pub first_doc-none :
      (p : Doc → Bool) (s l : Docs) (i : ℕ) (d : Doc)
      → first_doc p s l ≡ none
      → doc_of s i ≡ some d
      → is_some (doc_of l i) ≡ true
      → p d ≡ false
  first_doc-none p s [] i d e f g = cc
  first_doc-none p s ((j, x) ∷ l) i d e f g = ground (arith, first_doc-none p s l i d, ==_iff j i)

  pub first_doc-stored :
      (p : Doc → Bool) (s l : Docs) (d : Doc)
      → first_doc p s l ≡ some d
      → (i : ℕ) × (doc_of s i ≡ some d) × (p d ≡ true)
  first_doc-stored p s [] d e = absurd (ground arith)
  first_doc-stored p s ((j, x) ∷ l) d e = elim (Bool-cases (is_some (matching p (doc_of s j)))) [
    | inl here ↦ (j, ground arith, ground arith)
    | inr later ↦ first_doc-stored p s l d (ground arith)
  ]

  pub find_one-none-docs :
      (p : Doc → Bool) (s : Docs) (i : ℕ) (d : Doc)
      → first_doc p s s ≡ none
      → doc_of s i ≡ some d
      → p d ≡ false
  find_one-none-docs p s i d e f = first_doc-none p s s i d e f (ground (arith, f))

  abbrev pub memory_collection : Collection Doc time clash
  memory_collection = record {
    State = Docs;
    find_by_id = doc_of;
    find = λ p s. filter p (docs s);
    find_one = λ p s. first_doc p s s;
    find_recent = λ p s. sort_recent time (filter p (docs s));
    count_documents = λ p s. length (sort_recent time (filter p (docs s)));
    find_one_and_update = λ i p f s. update_doc i (changed p f (doc_of s i)) s;
    save = λ i d s. write_doc i (some d) s;
    delete_one = λ i s. write_doc i none s;
    create = create_doc;
    find_one_and_update-result = λ i p f s. update_doc-result i _ s;
    find_by_id-find_one_and_update = λ i j p f s. doc_of-update_doc i j p f s _ refl;
    find_by_id-save = λ i j d s. doc_of-write_doc i j (some d) s;
    find_by_id-delete_one = λ i j s. doc_of-write_doc i j none s;
    create-new = create_doc-new;
    create-clash = create_doc-clash;
    find_by_id-create = doc_of-create_doc;
    count_documents-find_recent = λ p s. refl;
    find-any = find-any-docs;
    find_recent-and = λ p q s.
        ap (sort_recent time) (filter-and p q (docs s))
        ∙ sort_recent-filter time q (filter p (docs s));
    find_recent-IsRecent = λ p s. sort_recent-IsRecent time (filter p (docs s));
    find_one-holds = λ p s d e. (first_doc-stored p s s d e).2;
    find_one-none = find_one-none-docs;
    find_one-stored = λ p s d e. let (i, f, h) = first_doc-stored p s s d e in (i, f);
  }
