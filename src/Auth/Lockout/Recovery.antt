-- ===== src/Auth/Lockout/Recovery.antt =====
-- An account that was locked is open again.
use node_chat_api.Prelude.{
  ℕ, ◌+◌, ◌%◌, ◌≤◌, ◌≡◌, String, Option, none, some, true, false, arith, leb, ltb, if◌then◌else◌,
  inl, inr, Bool-cases, Option-cases, is_some, Bool, List, [], ◌∷◌, refl, ◌∙◌, ==_refl,
}
use node_chat_api.Text.{Text}
use node_chat_api.Action.{Result, ok}
use node_chat_api.Models.{User}
use node_chat_api.Backend.{Key, Entry, live, number, valid}
use node_chat_api.World.{Backend, World}
use node_chat_api.Auth.{
  Session, login, failed_login, lockout_ttl, refresh_ttl_sec, validate_refresh_token,
  successful_login,
}
use node_chat_api.Auth.Sessions.{validate_refresh_token-issue}
use node_chat_api.Auth.Lockout.{
  user_named, value_at, lock_at, wrong_password, login-IsLocked, tries,
}

module _ ⦃b : Backend⦄ where
  -- A lock, if there is one, is over in 15 minutes.
  abbrev HasEnd : ℕ → Option Entry → Type 0
  HasEnd now none = Unit
  HasEnd now (some e) = (t : ℕ) × (e.expires ≡ some t) × (t ≤ now + 900000)

  fresh_lock : ℕ → Option Entry
  fresh_lock now = some (record { value = number 1; expires = some (now + 900000) })

  -- What a login does to the time, the users and the lock; `c` tells whether it sets the lock.
  abbrev Locks : ℕ → World → World → Bool → Type 0
  Locks u w w' c =
      (w'.now ≡ w.now)
      × (w'.users ≡ w.users)
      × (lock_at u w' ≡ (if c then fresh_lock w.now else lock_at u w))

  failed_login-Locks :
      (u : ℕ) (w : World)
      → Locks u w (failed_login u w).1 (leb 5 (b.redis.incr w.now (Key.login_attempts u) w.redis).0)
  unfolding failed_login fresh_lock
  failed_login-Locks u w =
      let k : Key = Key.login_attempts u in
      let l : Key = Key.login_locked u in
      let s : b.redis.State = (b.redis.incr w.now k w.redis).1 in
      let s' : b.redis.State = b.redis.expire w.now k lockout_ttl s in
      ground (
        arith,
        b.redis.entry-incr w.now k l w.redis,
        b.redis.entry-expire w.now lockout_ttl k l s,
        b.redis.entry-set_ex w.now lockout_ttl l l (number 1) s,
        b.redis.entry-set_ex w.now lockout_ttl l l (number 1) s',
        ==_refl u,
      )

  locked-Locks :
      (t : ℕ) (email : String) (password : Text) (u : User) (w : World)
      → user_named email w ≡ some u
      → is_some (value_at (Key.login_locked u.id) w) ≡ true
      → Locks u.id w (login t email password w).1 false
  locked-Locks t email password u w e h =
      rw (login-IsLocked t email password u w e h) (refl, refl, refl)

  -- The right password of an account that is not locked.
  right_password :
      (t : ℕ) (email : String) (password : Text) (u : User) (w : World)
      → user_named email w ≡ some u
      → value_at (Key.login_locked u.id) w ≡ none
      → b.crypto.compare password u.password_hash ≡ true
      → login t email password w ≡ successful_login t u w
  unfolding login
  right_password t email password u w e h good =
      ground (arith, b.redis.get-entry w.now (Key.login_locked u.id) w.redis)

  successful_login-Locks :
      (t : ℕ) (u : User) (w : World) → Locks u.id w (successful_login t u w).1 false
  unfolding successful_login
  successful_login-Locks t u w =
      let k : Key = Key.login_attempts u.id in
      let l : Key = Key.login_locked u.id in
      (
        refl,
        refl,
        b.redis.entry-set_ex w.now refresh_ttl_sec (Key.refresh u.id t) l valid
              (b.redis.del k w.redis)
            ∙ b.redis.entry-del k l w.redis,
      )

  -- A session, whose refresh token is good for seven days from the start of the present second.
  abbrev pub IsGood : ℕ → ℕ → Result Session × World → Type 0
  IsGood t u (r, w) =
      (session : Session) × (r ≡ ok session)
      × ((ms : ℕ)
          → (validate_refresh_token session.refresh_token (record w { now = w.now + ms })).0
            ≡ ok (if ltb (w.now % 1000 + ms) 604800000 then some (u, t) else none))

  successful_login-IsGood : (t : ℕ) (u : User) (w : World) → IsGood t u.id (successful_login t u w)
  unfolding successful_login
  successful_login-IsGood t u w =
      let s : b.redis.State = b.redis.del (Key.login_attempts u.id) w.redis in
      (_, refl, λ ms. validate_refresh_token-issue t u.id ms (record w { redis = s }) _ refl)

  -- Any login, with any password, sets the lock or leaves it.
  login-Locks :
      (t : ℕ) (email : String) (password : Text) (u : User) (w : World)
      → user_named email w ≡ some u
      → (c : Bool) × Locks u.id w (login t email password w).1 c
  login-Locks t email password u w e = elim (Option-cases (value_at (Key.login_locked u.id) w)) [
    | inr (v, h) ↦ (false, locked-Locks t email password u w e (rw h refl))
    | inl h ↦ elim (Bool-cases (b.crypto.compare password u.password_hash)) [
      | inl good ↦
          (false, rw (right_password t email password u w e h good) (successful_login-Locks t u w))
      | inr bad ↦ (
        leb 5 (b.redis.incr w.now (Key.login_attempts u.id) w.redis).0,
        rw (wrong_password t email password u w e h bad) (failed_login-Locks u.id w),
      )
    ]
  ]

  -- A lock, if there is one, is over in 15 minutes.
  abbrev pub IsBrief : ℕ → Option Entry → Type 0
  IsBrief now e = (later : ℕ) → now + 900000 ≤ later → live later e ≡ none

  login-IsBrief :
      (u : ℕ) (w w' : World) (c : Bool)
      → Locks u w w' c
      → IsBrief w.now (lock_at u w)
      → IsBrief w'.now (lock_at u w')
  unfolding fresh_lock
  login-IsBrief u w w' c (clock, same, lock) h later late =
      ground (arith, clock, lock, h later (omega (arith, clock)))

  tries-IsBrief :
      (t : ℕ) (email : String) (u : User) (ps : List (ℕ × Text)) (w : World)
      → user_named email w ≡ some u
      → IsBrief w.now (lock_at u.id w)
      → let w' = tries t email ps w in (w'.users ≡ w.users) × IsBrief w'.now (lock_at u.id w')
  unfolding tries
  tries-IsBrief t email u [] w e h = (refl, h)
  tries-IsBrief t email u ((ms, password) ∷ ps) w e h =
      let v : World = record w { now = w.now + ms } in
      let (c, (clock, same, lock)) = login-Locks t email password u v e in
      let w' : World = (login t email password v).1 in
      let rest =
        tries-IsBrief t email u ps w' (ground (arith, e, same))
          (login-IsBrief u.id v w' c (clock, same, lock) (λ later late. h later (omega arith))) in
      (rest.0 ∙ same, rest.1)

  -- From an account whose lock, if any, ends within 15 minutes, and after any logins with any passwords,
  -- right or wrong, at any times: once nobody has tried for 15 minutes, a login with the right password
  -- succeeds, with a refresh token that is accepted for exactly seven days, counted from the start of the
  -- second of that login.
  pub login-tries :
      (t i : ℕ) (email : String) (u : User) (ps : List (ℕ × Text)) (password : Text) (wait : ℕ)
      (w : World)
      → user_named email w ≡ some u
      → IsBrief w.now (lock_at u.id w)
      → b.crypto.compare password u.password_hash ≡ true
      → 900000 ≤ wait
      → let w' = tries t email ps w in
        IsGood i u.id (login i email password (record w' { now = w'.now + wait }))
  login-tries t i email u ps password wait w e h good time =
      let w' : World = tries t email ps w in
      let (same, brief) = tries-IsBrief t email u ps w e h in
      let v : World = record w' { now = w'.now + wait } in
      rw
        (right_password i email password u v (ground (arith, e, same))
          (brief (w'.now + wait) (omega arith)) good)
        (successful_login-IsGood i u v)
