-- ===== src/Backend/Commands.antt =====
-- The Redis commands on strings, by their documented effect on the entry of each key.
use node_chat_api.Prelude.{
  ℕ, ◌+◌, ◌*◌, ◌≡◌, ◌≢◌, Option, none, some, List, [], ◌∷◌, ◌++◌, Bool, true, false, any, is_some,
  ◌==◌, ltb, if◌then◌else◌,
}
use node_chat_api.Backend.Keys.{Key, key_eq, Value, number, Entry}

-- An entry is there until its time has come.
abbrev pub live : ℕ → Option Entry → Option Value
live now none = none
live now (some e) = elim e.expires [
  | none ↦ some e.value
  | some t ↦ if ltb now t then some e.value else none
]

-- INCR: a missing key counts as 0 and gets no expiry, a number keeps the one that it has.
abbrev pub counted : Option Value → ℕ
counted (some (number n)) = n + 1
counted _ = 1

abbrev pub deadline : Option Entry → Option Value → Option ℕ
deadline (some e) (some v) = e.expires
deadline _ _ = none

abbrev pub bumped : ℕ → Option Entry → Option Entry
bumped now e =
    some (record { value = number (counted (live now e)); expires = deadline e (live now e) })

-- EXPIRE, with a time to live in seconds.
abbrev pub expiring : ℕ → ℕ → Option Value → Option Entry
expiring now ttl none = none
expiring now ttl (some v) = some (record { value = v; expires = some (now + ttl * 1000) })

-- The batches of a SCAN iteration: `step` gives the next cursor and a batch, and 0 ends it.
abbrev pub Iterates : (ℕ → ℕ × List Key) → ℕ → List (List Key) → Type 0
Iterates step cursor [] = ⊥
Iterates step cursor (batch ∷ []) = ((step cursor).0 ≡ 0) × ((step cursor).1 ≡ batch)
Iterates step cursor (batch ∷ more ∷ rest) =
    ((step cursor).0 ≢ 0) × ((step cursor).1 ≡ batch) × Iterates step (step cursor).0 (more ∷ rest)

abbrev pub flat : List (List Key) → List Key
flat [] = []
flat (ks ∷ rest) = ks ++ flat rest

abbrev pub lists : List Key → Key → Bool
lists ks k = any (λ j. key_eq j k) ks

-- `MATCH refresh:{userId}:*`
abbrev pub is_refresh_of : ℕ → Key → Bool
is_refresh_of u (Key.refresh v t) = v == u
is_refresh_of u _ = false

-- Each command is given the server's time where it depends on it.
pub record Redis : Type 1 where
  pub State : Type 0
  pub entry : State → Key → Option Entry
  pub get : ℕ → Key → State → Option Value
  pub set : Key → Value → State → State
  pub set_ex : ℕ → Key → Value → ℕ → State → State
  pub del : Key → State → State
  pub getdel : ℕ → Key → State → Option Value × State
  pub incr : ℕ → Key → State → ℕ × State
  pub expire : ℕ → Key → ℕ → State → State
  pub scan_refresh : ℕ → ℕ → State → ℕ × List Key
  pub get-entry : (now : ℕ) (k : Key) (s : State) → get now k s ≡ live now (entry s k)
  pub entry-set :
      (k j : Key) (v : Value) (s : State)
      → entry (set k v s) j
        ≡ (if key_eq k j then some (record { value = v; expires = none }) else entry s j)
  pub entry-set_ex :
      (now ttl : ℕ) (k j : Key) (v : Value) (s : State)
      → entry (set_ex now k v ttl s) j ≡ (
          if key_eq k j
          then some (record { value = v; expires = some (now + ttl * 1000) })
          else entry s j)
  pub entry-del :
      (k j : Key) (s : State) → entry (del k s) j ≡ (if key_eq k j then none else entry s j)
  pub getdel-get : (now : ℕ) (k : Key) (s : State) → (getdel now k s).0 ≡ get now k s
  pub getdel-del : (now : ℕ) (k : Key) (s : State) → (getdel now k s).1 ≡ del k s
  pub incr-get : (now : ℕ) (k : Key) (s : State) → (incr now k s).0 ≡ counted (get now k s)
  pub entry-incr :
      (now : ℕ) (k j : Key) (s : State)
      → entry (incr now k s).1 j ≡ (if key_eq k j then bumped now (entry s k) else entry s j)
  pub entry-expire :
      (now ttl : ℕ) (k j : Key) (s : State)
      → entry (expire now k ttl s) j
        ≡ (if key_eq k j then expiring now ttl (get now k s) else entry s j)
  -- An iteration ends, and returns every key that is there, and keys that match only.
  pub scan_refresh-complete :
      (u : ℕ) (s : State)
      → (batches : List (List Key)) × Iterates (λ c. scan_refresh u c s) 0 batches
        × ((k : Key)
            → is_refresh_of u k ≡ true
            → is_some (entry s k) ≡ true
            → lists (flat batches) k ≡ true)
        × ((k : Key) → lists (flat batches) k ≡ true → is_refresh_of u k ≡ true)
