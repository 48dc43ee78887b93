-- ===== src/Auth/Sessions.antt =====
-- The life of a refresh token: it is accepted from the login on, for seven days, until it is used,
-- logged out, or the password is reset.
use node_chat_api.Prelude.{
  ℕ, ◌+◌, ◌%◌, ◌≡◌, ◌≢◌, none, some, true, false, arith, ltb, if◌then◌else◌, inl, inr, Option-cases,
  Bool-cases, ap,
}
use node_chat_api.Errors.{Error, unauthorized}
use node_chat_api.Action.{Result, ok, err}
use node_chat_api.Backend.{Key, live, valid}
use node_chat_api.World.{Backend, World, Payload, find_user}
use node_chat_api.Auth.{
  Session, issue_refresh_token, validate_refresh_token, refresh, logout, refresh_ttl_sec,
}

abbrev pub not_accepted : Error
not_accepted = unauthorized "Invalid or expired refresh token" "UNAUTHORIZED"

module _ ⦃b : Backend⦄ where
  -- A refresh token is accepted for exactly seven days, counted from the start of the second in which it
  -- is issued, as long as its key is not deleted, and names the user and the token it was issued for.
  pub validate_refresh_token-issue :
      (t u ms : ℕ) (w : World) (token : b.crypto.Token)
      → (issue_refresh_token t u w).0 ≡ ok token
      → (validate_refresh_token token (record (issue_refresh_token t u w).1 { now = w.now + ms })).0
        ≡ ok (if ltb (w.now % 1000 + ms) 604800000 then some (u, t) else none)
  unfolding issue_refresh_token validate_refresh_token
  validate_refresh_token-issue t u ms w token e =
      let s : b.redis.State =
        b.redis.set_ex w.now (Key.refresh u t) valid refresh_ttl_sec w.redis in
      ground (
        arith,
        b.crypto.verify-sign_refresh u t refresh_ttl_sec w.now (w.now + ms),
        b.redis.get-entry (w.now + ms) (Key.refresh u t) s,
        b.redis.entry-set_ex w.now refresh_ttl_sec (Key.refresh u t) (Key.refresh u t) valid
            w.redis,
      )

  -- The key of a token's payload is not there, or has expired.
  abbrev IsSpent : Payload → World → Type 0
  IsSpent p w = live w.now (b.redis.entry w.redis (Key.refresh p.sub p.jti)) ≡ none

  refresh_spent :
      (t : ℕ) (token : b.crypto.Token) (p : Payload) (w : World)
      → b.crypto.verify_refresh w.now token ≡ some p
      → IsSpent p w
      → (refresh t token w).0 ≡ err not_accepted
  unfolding refresh
  refresh_spent t token p w e h =
      ground (arith, b.redis.get-entry w.now (Key.refresh p.sub p.jti) w.redis)

  refresh-IsSpent :
      (t : ℕ) (token : b.crypto.Token) (p : Payload) (w : World)
      → b.crypto.verify_refresh w.now token ≡ some p
      → p.is_refresh ≡ true
      → t ≢ p.jti
      → ((refresh t token w).1.now ≡ w.now) × IsSpent p (refresh t token w).1
  unfolding refresh
  refresh-IsSpent t token p w e typed ne =
      let k : Key = Key.refresh p.sub p.jti in
      elim (Option-cases (find_user p.sub w)) [
        | inl f ↦ ground (arith, b.redis.get-entry w.now k w.redis, b.redis.entry-del k k w.redis)
        | inr (user, f) ↦ ground (
          arith,
          b.redis.get-entry w.now k w.redis,
          b.redis.entry-del k k w.redis,
          b.redis.entry-set_ex w.now refresh_ttl_sec (Key.refresh user.id t) k valid
              (b.redis.del k w.redis),
        )
      ]

  refresh_untyped :
      (t : ℕ) (token : b.crypto.Token) (p : Payload) (w : World)
      → b.crypto.verify_refresh w.now token ≡ some p
      → p.is_refresh ≡ false
      → refresh t token w ≡ (err not_accepted, w)
  unfolding refresh
  refresh_untyped t token p w e typed = ground arith

  -- A refresh token is good for one refresh: presented again, it is refused, whether the first request
  -- returned new tokens or failed. (The uuid of the token that the first request issues is not the old
  -- one's.)
  pub refresh_twice :
      (t t' : ℕ) (token : b.crypto.Token) (p : Payload) (w : World)
      → b.crypto.verify_refresh w.now token ≡ some p
      → t ≢ p.jti
      → (refresh t' token (refresh t token w).1).0 ≡ err not_accepted
  refresh_twice t t' token p w e ne = elim (Bool-cases p.is_refresh) [
    | inl typed ↦
        let (clock, spent) = refresh-IsSpent t token p w e typed ne in
        refresh_spent t' token p (refresh t token w).1 (rw clock e) spent
    | inr other ↦
        rw (refresh_untyped t token p w e other)
          (ap (λ (x : Result Session × World). x.0) (refresh_untyped t' token p w e other))
  ]

  -- A token that was logged out is refused, and logging it out again is no error.
  pub refresh-logout :
      (t : ℕ) (token : b.crypto.Token) (p : Payload) (w : World)
      → b.crypto.verify_refresh w.now token ≡ some p
      → ((logout token w).0 ≡ ok tt)
        × ((refresh t token (logout token w).1).0 ≡ err not_accepted)
        × ((logout token (logout token w).1).0 ≡ ok tt)
  unfolding logout refresh
  refresh-logout t token p w e =
      let k : Key = Key.refresh p.sub p.jti in
      let s : b.redis.State = b.redis.del k w.redis in
      ground (
        arith,
        b.redis.get-entry w.now k w.redis,
        b.redis.get-entry w.now k s,
        b.redis.entry-del k k w.redis,
      )
