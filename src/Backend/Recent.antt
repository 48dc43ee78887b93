-- ===== src/Backend/Recent.antt =====
-- The order of `sort({createdAt: -1})`, newest first, and a stable insertion sort that makes it.
use node_chat_api.Prelude.{
  ℕ, ◌≤◌, ◌≡◌, List, [], ◌∷◌, Bool, filter, leb, arith, refl, if◌then◌else◌,
}

module _ {Doc : Type 0} (time : Doc → ℕ) where
  abbrev pub insert_recent : Doc → List Doc → List Doc
  insert_recent d [] = d ∷ []
  insert_recent d (e ∷ ds) = if leb (time e) (time d) then d ∷ e ∷ ds else e ∷ insert_recent d ds

  abbrev pub sort_recent : List Doc → List Doc
  sort_recent [] = []
  sort_recent (d ∷ ds) = insert_recent d (sort_recent ds)

  abbrev pub AllUpTo : ℕ → List Doc → Type 0
  AllUpTo n [] = Unit
  AllUpTo n (d ∷ ds) = (time d ≤ n) × AllUpTo n ds

  -- No document is newer than the one before it.
  abbrev pub IsRecent : List Doc → Type 0
  IsRecent [] = Unit
  IsRecent (d ∷ ds) = AllUpTo (time d) ds × IsRecent ds

  AllUpTo-mono : (n m : ℕ) (ds : List Doc) → n ≤ m → AllUpTo n ds → AllUpTo m ds
  AllUpTo-mono n m [] h a = tt
  AllUpTo-mono n m (d ∷ ds) h a = (omega (arith, a.0), AllUpTo-mono n m ds h a.1)

  insert_recent-AllUpTo :
      (n : ℕ) (d : Doc) (ds : List Doc) → time d ≤ n → AllUpTo n ds → AllUpTo n (insert_recent d ds)
  insert_recent-AllUpTo n d [] h a = (h, tt)
  insert_recent-AllUpTo n d (e ∷ ds) h a = ground (arith, insert_recent-AllUpTo n d ds)

  insert_recent-IsRecent : (d : Doc) (ds : List Doc) → IsRecent ds → IsRecent (insert_recent d ds)
  insert_recent-IsRecent d [] s = (tt, tt)
  insert_recent-IsRecent d (e ∷ ds) s = ground (
    arith,
    insert_recent-IsRecent d ds,
    insert_recent-AllUpTo (time e) d ds,
    AllUpTo-mono (time e) (time d) ds,
  )

  pub sort_recent-IsRecent : (ds : List Doc) → IsRecent (sort_recent ds)
  sort_recent-IsRecent [] = tt
  sort_recent-IsRecent (d ∷ ds) =
      insert_recent-IsRecent d (sort_recent ds) (sort_recent-IsRecent ds)

  insert_first : (d : Doc) (ds : List Doc) → AllUpTo (time d) ds → insert_recent d ds ≡ d ∷ ds
  insert_first d [] a = refl
  insert_first d (e ∷ ds) a = ground arith

  filter-AllUpTo : (n : ℕ) (p : Doc → Bool) (ds : List Doc) → AllUpTo n ds → AllUpTo n (filter p ds)
  filter-AllUpTo n p [] a = tt
  filter-AllUpTo n p (d ∷ ds) a = ground (arith, filter-AllUpTo n p ds)

  filter-insert_recent :
      (p : Doc → Bool) (d : Doc) (ds : List Doc)
      → IsRecent ds
      → filter p (insert_recent d ds) ≡ (if p d then insert_recent d (filter p ds) else filter p ds)
  filter-insert_recent p d [] s = ground arith
  filter-insert_recent p d (e ∷ ds) s = ground (
    arith,
    filter-insert_recent p d ds,
    insert_first d (filter p ds),
    filter-AllUpTo (time d) p ds,
    AllUpTo-mono (time e) (time d) ds,
  )

  pub sort_recent-filter :
      (p : Doc → Bool) (ds : List Doc) → sort_recent (filter p ds) ≡ filter p (sort_recent ds)
  sort_recent-filter p [] = refl
  sort_recent-filter p (d ∷ ds) = ground (
    arith,
    sort_recent-filter p ds,
    filter-insert_recent p d (sort_recent ds),
    sort_recent-IsRecent ds,
  )
