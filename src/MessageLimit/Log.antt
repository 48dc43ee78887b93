-- ===== src/MessageLimit/Log.antt =====
-- The limiter against a log of all attempts: it answers as one that counts the log would.
use node_chat_api.Prelude.{
  ℕ, ◌+◌, ◌≤◌, ◌≡◌, some, List, [], ◌∷◌, Bool, true, false, not, ◌&&◌, ◌||◌, map, length, leb, ltb,
  ◌==◌, arith, refl, ◌∙◌, inl, inr, Bool-cases,
}
use node_chat_api.Action.{Result, ok, err}
use node_chat_api.Backend.{
  msg_limit, ZMember, stamp, member_eq, ZSet, live_zset, without, newer, placed,
}
use node_chat_api.World.{Backend, World}
use node_chat_api.MessageLimit.{check_message_rate_limit}
use node_chat_api.MessageLimit.Tally.{
  Item, tally, tally-filter, tally-filter_self, length-tally, tally_congr, tally_split, tally_none,
  tally-placed,
}
use node_chat_api.MessageLimit.Window.{young, item, limit_set, check_lem}

-- Attempts, the latest first: the time and the random number of each.
abbrev pub Log : Type 0
Log = List (ℕ × ℕ)

abbrev pub IsPast : ℕ → Log → Type 0
IsPast t [] = Unit
IsPast t (x ∷ xs) = (x.0 ≤ t) × IsPast t xs

abbrev pub has : ℕ → List ℕ → Bool
has r [] = false
has r (q ∷ qs) = (q == r) || has r qs

abbrev pub nonces : Log → List ℕ
nonces log = map (λ x. x.1) log

-- The attempts of the minute that ends at `n`.
abbrev pub recent : ℕ → Log → ℕ
recent n log = tally (young n) (map item log)

IsPast-mono : (t n : ℕ) (log : Log) → t ≤ n → IsPast t log → IsPast n log
IsPast-mono t n [] h a = tt
IsPast-mono t n (x ∷ xs) h a = (omega (arith, a.0), IsPast-mono t n xs h a.1)

old_log :
    (t n : ℕ) (p : Item → Bool) (log : Log)
    → IsPast t log
    → t + 60000 ≤ n
    → tally (λ x. p x && young n x) (map item log) ≡ 0
old_log t n p [] a h = refl
old_log t n p (x ∷ xs) a h = ground (arith, old_log t n p xs)

unused_stamp :
    (t r : ℕ) (log : Log)
    → has r (nonces log) ≡ false
    → tally (λ x. member_eq x.0 (stamp t r)) (map item log) ≡ 0
unused_stamp t r [] h = refl
unused_stamp t r (x ∷ xs) h = ground (arith, unused_stamp t r xs)

-- The items that count at any later time are those of the log.
abbrev Agrees : ℕ → Log → ZSet → Type 0
Agrees t log z =
    (n : ℕ)
    → t ≤ n
    → (p : Item → Bool)
    → tally (λ x. p x && young n x) (live_zset n z).items
      ≡ tally (λ x. p x && young n x) (map item log)

module _ (t r : ℕ) (log : Log) (z : ZSet) (agrees : Agrees t log z)
    (new : has r (nonces log) ≡ false) where
  abbrev survivors : List Item
  survivors = without (stamp t r) (newer t 60000 (live_zset t z).items)

  -- What is kept counts as the log does, from now on.
  tally-survivors :
      (n : ℕ) (p : Item → Bool)
      → t ≤ n
      → tally (λ x. p x && young n x) survivors ≡ tally (λ x. p x && young n x) (map item log)
  tally-survivors n p h =
      let used : Item → Bool = λ x. member_eq x.0 (stamp t r) in
      let now_too : Item → Bool = λ x. p x && young n x in
      let current : List Item = newer t 60000 (live_zset t z).items in
      let items : List Item = map item log in
      tally-filter now_too (λ x. not (used x)) current
      ∙ tally-filter (λ x. now_too x && not (used x)) (young t) (live_zset t z).items
      ∙ agrees t (omega arith) (λ x. now_too x && not (used x))
      ∙ tally_congr (λ x. (now_too x && not (used x)) && young t x) (λ x. now_too x && not (used x))
          items (λ x. ground arith)
      ∙ omega (
        arith,
        tally_split now_too used items,
        tally_none now_too used items (unused_stamp t r log new),
      )

  pub length-survivors : length survivors ≡ recent t log
  length-survivors =
      length-tally survivors
      ∙ tally-filter_self (λ _. true) (young t) (λ x. not (member_eq x.0 (stamp t r)))
          (live_zset t z).items
      ∙ tally-survivors t (λ _. true) (omega arith)
      ∙ tally_congr (λ x. true && young t x) (young t) (map item log) (λ x. refl)

  -- The set after the attempt.
  abbrev grown : (ZMember → ZMember → Bool) → ZSet
  grown before = record {
    items = placed before (stamp t r, t) survivors;
    expires = some (t + 60000);
  }

  grown-Agrees :
      (before : ZMember → ZMember → Bool) → IsPast t log → Agrees t ((t, r) ∷ log) (grown before)
  grown-Agrees before past n h p = elim (Bool-cases (ltb n (t + 60000))) [
    | inl alive ↦ ground (
      arith,
      tally-placed before (λ x. p x && young n x) (stamp t r, t) survivors,
      tally-survivors n p h,
    )
    | inr expired ↦ ground (arith, old_log t n p log past)
  ]

-- The answers of a limiter that keeps the whole log: yes as long as the minute that ends now has at most
-- thirty attempts, this one and refused ones included.
unfoldable pub log_answers : ℕ → Log → Log → List Bool
log_answers now log [] = []
log_answers now log ((ms, r) ∷ rest) =
    leb (recent (now + ms) ((now + ms, r) ∷ log)) 30
    ∷ log_answers (now + ms) ((now + ms, r) ∷ log) rest

-- The random numbers of the attempts to come are new, and differ.
abbrev pub AllNew : List ℕ → Log → Type 0
AllNew used [] = Unit
AllNew used ((ms, r) ∷ rest) = (has r used ≡ false) × AllNew (r ∷ used) rest

abbrev pub answer : Result Bool → Bool
answer (ok a) = a
answer (err e) = false

module _ ⦃b : Backend⦄ (u : ℕ) where
  -- The answers of the code to attempts, each given by the delay before it and its random number.
  pub answers : Log → World → List Bool
  answers [] w = []
  answers ((ms, r) ∷ rest) w =
      let (a, w') = check_message_rate_limit r u (record w { now = w.now + ms }) in
      answer a ∷ answers rest w'

  answers_agree :
      (attempts log : Log) (w : World)
      → IsPast w.now log
      → Agrees w.now log (limit_set u w)
      → AllNew (nonces log) attempts
      → answers attempts w ≡ log_answers w.now log attempts
  unfolding answers log_answers check_message_rate_limit
  answers_agree [] log w past agrees new = refl
  answers_agree ((ms, r) ∷ rest) log w past agrees new =
      let t : ℕ = w.now + ms in
      let v : World = record w { now = t } in
      let w' : World = (check_message_rate_limit r u v).1 in
      let (verdict, clock, set) = check_lem r u v in
      let later : Agrees t log (limit_set u v) = λ n h p. agrees n (omega arith) p in
      let old : IsPast t log = IsPast-mono w.now t log (omega arith) past in
      let grows : Agrees t ((t, r) ∷ log) (limit_set u w') =
        rw set (grown-Agrees t r log (limit_set u v) later new.0 b.sets.spelled_before old) in
      let more = answers_agree rest ((t, r) ∷ log) w' (omega arith, old) grows new.1 in
      ground (arith, verdict, more, length-survivors t r log (limit_set u v) later new.0)

  -- For a user with no attempt on record the limiter answers each message as one that remembers every
  -- attempt: it lets the message pass exactly when at most thirty attempts, this one and refused ones
  -- included, were made in the minute that ends now, however they are spread. (The random numbers that
  -- tell attempts of one millisecond apart differ.)
  pub answers-eq-log_answers :
      (attempts : Log) (w : World)
      → (b.sets.zset w.sets (msg_limit u)).items ≡ []
      → AllNew [] attempts
      → answers attempts w ≡ log_answers w.now [] attempts
  answers-eq-log_answers attempts w none_yet new =
      answers_agree attempts [] w tt (λ n h p. ground arith) new
