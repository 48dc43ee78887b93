-- ===== src/Auth/Lockout.antt =====
-- The lockout of an account after wrong passwords.
pub mod Recovery
use text.Mathlib.Text.{◌==◌ as str_eq}
use node_chat_api.Prelude.{
  ℕ, ◌+◌, ◌<◌, ◌≤◌, ◌≡◌, String, Option, none, some, true, false, arith, leb, if◌then◌else◌, inl,
  inr, Bool-cases, is_some, List, [], ◌∷◌, length, ap,
}
use node_chat_api.Text.{Text}
use node_chat_api.Errors.{reference_error}
use node_chat_api.Action.{Result, err}
use node_chat_api.Models.{User}
use node_chat_api.Backend.{Key, Entry, Value, live, number}
use node_chat_api.World.{stored_name, stored_email, Backend, World, find_one_user}
use node_chat_api.Auth.{Session, login, failed_login, lockout_ttl}

module _ ⦃b : Backend⦄ where
  -- The user whom an e-mail address names.
  abbrev pub user_named : String → World → Option User
  user_named email w = find_one_user (λ u. str_eq u.email (stored_email email)) w

  abbrev pub value_at : Key → World → Option Value
  value_at k w = live w.now (b.redis.entry w.redis k)

  abbrev attempts_at : ℕ → World → Option Entry
  attempts_at u w = b.redis.entry w.redis (Key.login_attempts u)

  abbrev pub IsLocked : ℕ → World → Type 0
  IsLocked u w = is_some (value_at (Key.login_locked u) w) ≡ true

  -- While the lock is there, a login fails with the same error whatever the password, the right one
  -- included, and changes nothing.
  pub login-IsLocked :
      (t : ℕ) (email : String) (password : Text) (u : User) (w : World)
      → user_named email w ≡ some u
      → IsLocked u.id w
      → login t email password w ≡ (err (reference_error "LockedError"), w)
  unfolding login
  login-IsLocked t email password u w e h =
      ground (arith, b.redis.get-entry w.now (Key.login_locked u.id) w.redis)

  -- A wrong password of an account that is not locked.
  wrong_password :
      (t : ℕ) (email : String) (password : Text) (u : User) (w : World)
      → user_named email w ≡ some u
      → value_at (Key.login_locked u.id) w ≡ none
      → b.crypto.compare password u.password_hash ≡ false
      → login t email password w ≡ failed_login u.id w
  unfolding login
  wrong_password t email password u w e h bad =
      ground (arith, b.redis.get-entry w.now (Key.login_locked u.id) w.redis)

  abbrev pub lock_at : ℕ → World → Option Entry
  lock_at u w = b.redis.entry w.redis (Key.login_locked u)

  first_failure :
      (u : ℕ) (w : World)
      → attempts_at u w ≡ none
      → let w' = (failed_login u w).1 in
        (w'.now ≡ w.now)
        × (w'.users ≡ w.users)
        × (attempts_at u w' ≡ some (record { value = number 1; expires = some (w.now + 900000) }))
        × (lock_at u w' ≡ lock_at u w)
  unfolding failed_login
  first_failure u w h =
      let k : Key = Key.login_attempts u in
      let s : b.redis.State = (b.redis.incr w.now k w.redis).1 in
      ground (
        arith,
        b.redis.incr-get w.now k w.redis,
        b.redis.get-entry w.now k w.redis,
        b.redis.get-entry w.now k s,
        b.redis.entry-incr w.now k k w.redis,
        b.redis.entry-incr w.now k (Key.login_locked u) w.redis,
        b.redis.entry-expire w.now lockout_ttl k k s,
        b.redis.entry-expire w.now lockout_ttl k (Key.login_locked u) s,
      )

  counter : ℕ → ℕ → Option Entry
  counter n d = some (record { value = number n; expires = some d })

  -- One more failure while the counter is alive: it keeps its deadline, and the fifth sets the lock.
  next_failure :
      (u n d : ℕ) (w : World)
      → attempts_at u w ≡ counter n d
      → 1 ≤ n
      → w.now < d
      → let w' = (failed_login u w).1 in
        (w'.now ≡ w.now)
        × (w'.users ≡ w.users)
        × (attempts_at u w' ≡ counter (n + 1) d)
        × (lock_at u w' ≡ (if leb 5 (n + 1) then counter 1 (w.now + 900000) else lock_at u w))
  unfolding failed_login counter
  next_failure u n d w h pos alive =
      let k : Key = Key.login_attempts u in
      let s : b.redis.State = (b.redis.incr w.now k w.redis).1 in
      ground (
        arith,
        b.redis.incr-get w.now k w.redis,
        b.redis.get-entry w.now k w.redis,
        b.redis.entry-incr w.now k k w.redis,
        b.redis.entry-incr w.now k (Key.login_locked u) w.redis,
        b.redis.entry-set_ex w.now lockout_ttl (Key.login_locked u) k (number 1) s,
        b.redis.entry-set_ex w.now lockout_ttl (Key.login_locked u) (Key.login_locked u) (number 1)
            s,
      )

  -- Logins with the passwords of a list, each after a delay.
  unfoldable pub tries : ℕ → String → List (ℕ × Text) → World → World
  tries t email [] w = w
  tries t email ((ms, password) ∷ rest) w =
      tries t email rest (login t email password (record w { now = w.now + ms })).1

  abbrev pub total_delay : List (ℕ × Text) → ℕ
  total_delay [] = 0
  total_delay ((ms, password) ∷ rest) = ms + total_delay rest

  abbrev pub AllWrong : User → List (ℕ × Text) → Type 0
  AllWrong u [] = Unit
  AllWrong u ((ms, password) ∷ rest) =
      (b.crypto.compare password u.password_hash ≡ false) × AllWrong u rest

  -- The first try has a wrong password, and the account is not locked.
  tries_wrong :
      (t : ℕ) (email : String) (u : User) (ms : ℕ) (password : Text) (ps : List (ℕ × Text))
      (w : World)
      → user_named email w ≡ some u
      → lock_at u.id w ≡ none
      → b.crypto.compare password u.password_hash ≡ false
      → tries t email ((ms, password) ∷ ps) w
        ≡ tries t email ps (failed_login u.id (record w { now = w.now + ms })).1
  unfolding tries
  tries_wrong t email u ms password ps w e l bad =
      ap (λ (x : Result Session × World). tries t email ps x.1)
        (wrong_password t email password u (record w { now = w.now + ms }) e (ground arith) bad)

  no_more_tries :
      (t : ℕ) (email : String) (u : ℕ) (ps : List (ℕ × Text)) (w : World)
      → length ps ≡ 0
      → IsLocked u w
      → IsLocked u (tries t email ps w)
  unfolding tries
  no_more_tries t email u [] w e h = h
  no_more_tries t email u (p ∷ ps) w e h = absurd (omega arith)

  more_tries-IsLocked :
      (t : ℕ) (email : String) (u : User) (ps : List (ℕ × Text)) (n d : ℕ) (w : World)
      → user_named email w ≡ some u
      → attempts_at u.id w ≡ counter n d
      → lock_at u.id w ≡ none
      → AllWrong u ps
      → 1 ≤ n
      → n < 5
      → n + length ps ≡ 5
      → w.now + total_delay ps < d
      → IsLocked u.id (tries t email ps w)
  unfolding counter
  more_tries-IsLocked t email u [] n d w e c l bad lo hi size time = absurd (omega arith)
  more_tries-IsLocked t email u ((ms, password) ∷ ps) n d w e c l bad lo hi size time =
      let v : World = record w { now = w.now + ms } in
      let (clock, same, count, lock) = next_failure u.id n d v c lo (omega arith) in
      rw (tries_wrong t email u ms password ps w e l bad.0) (elim (Bool-cases (leb 5 (n + 1))) [
        | inl fifth ↦
            no_more_tries t email u.id ps (failed_login u.id v).1 (ground arith) (ground arith)
        | inr fewer ↦
            more_tries-IsLocked t email u ps (n + 1) d (failed_login u.id v).1 (ground arith) count
              (ground arith) bad.1 (omega arith) (ground arith) (omega arith) (ground arith)
      ])

  -- Five wrong passwords for an account with no failed attempt on record, the last within 15 minutes
  -- of the first, leave it locked.
  pub tries-IsLocked :
      (t : ℕ) (email : String) (u : User) (ms : ℕ) (password : Text) (ps : List (ℕ × Text))
      (w : World)
      → user_named email w ≡ some u
      → b.redis.entry w.redis (Key.login_attempts u.id) ≡ none
      → b.redis.entry w.redis (Key.login_locked u.id) ≡ none
      → AllWrong u ((ms, password) ∷ ps)
      → length ps ≡ 4
      → total_delay ps < 900000
      → IsLocked u.id (tries t email ((ms, password) ∷ ps) w)
  tries-IsLocked t email u ms password ps w e c l bad size time =
      let v : World = record w { now = w.now + ms } in
      let (clock, same, count, lock) = first_failure u.id v c in
      rw (tries_wrong t email u ms password ps w e l bad.0) (
        more_tries-IsLocked t email u ps 1 (v.now + 900000) (failed_login u.id v).1 (ground arith)
          (unfold counter in count) (ground arith) bad.1 (omega arith) (omega arith) (omega arith)
          (ground arith))
