-- ===== src/Auth/Apart.antt =====
-- The operations of the accounts, beside the clock and the counters of the HTTP rate limiter.
use node_chat_api.Prelude.{
  ℕ, ◌≡◌, String, Option, none, some, arith, inl, inr, Option-cases, false, refl,
}
use text.Mathlib.Text.{◌==◌ as str_eq}
use node_chat_api.Text.{Text}
use node_chat_api.Models.{User}
use node_chat_api.Backend.{Key, key_eq, valid, user_ref, number}
use node_chat_api.World.{stored_name, stored_email, Backend, World, find_one_user, enqueue}
use node_chat_api.Auth.{
  register, new_user, insert_user, login, failed_login, lock_out, successful_login, forgot_password,
  send_reset, incr_with_expire, sign_access_token, issue_refresh_token, open_session, fresh_user,
  refresh_ttl_sec, verify_token_ttl, lockout_ttl, reset_token_ttl,
}

module _ ⦃b : Backend⦄ (prefix id : String) where
  -- The clock and the counter of an address, before and after.
  abbrev pub Apart : World → World → Type 0
  Apart w v =
      (v.now ≡ w.now)
      × (b.redis.entry v.redis (Key.http_limit prefix id)
          ≡ b.redis.entry w.redis (Key.http_limit prefix id))

  open_session-Apart : (t : ℕ) (u : User) (w : World) → Apart w (open_session t u w).1
  unfolding sign_access_token issue_refresh_token
  open_session-Apart t u w = (
    refl,
    ground (
      arith,
      b.redis.entry-set_ex w.now refresh_ttl_sec (Key.refresh u.id t) (Key.http_limit prefix id)
          valid w.redis,
    ),
  )

  new_user-Apart :
      (i t j salt : ℕ) (name email : String) (p : Text) (x : Option User) (w : World)
      → Apart w (new_user i t j salt name email p x w).1
  unfolding new_user insert_user
  new_user-Apart i t j salt name email p (some x) w = (refl, refl)
  new_user-Apart i t j salt name email p none w =
      let user : User =
        fresh_user i (stored_name name) (stored_email email) (b.crypto.hash salt p) w.now in
      elim (Option-cases (b.users.create i user w.users)) [
        | inl e ↦ ground (arith, e)
        | inr (s, e) ↦
            let stored : b.redis.State =
              b.redis.set_ex w.now (Key.email_verify t) (user_ref i) verify_token_ttl w.redis in
            let w' : World =
              (enqueue (record { name = "send-verification"; to = email; token = t })
                (record w { users = s; redis = stored })).1 in
            ground (
              arith,
              e,
              b.redis.entry-set_ex w.now verify_token_ttl (Key.email_verify t)
                  (Key.http_limit prefix id) (user_ref i) w.redis,
              open_session-Apart j user w',
            )
      ]

  pub register-Apart :
      (i t j salt : ℕ) (name email : String) (p : Text) (w : World)
      → Apart w (register i t j salt name email p w).1
  unfolding register
  register-Apart i t j salt name email p w = new_user-Apart i t j salt name email p _ w

  incr_with_expire-Apart :
      (k : Key) (ttl : ℕ) (w : World)
      → key_eq k (Key.http_limit prefix id) ≡ false
      → Apart w (incr_with_expire k ttl w).1
  incr_with_expire-Apart k ttl w other =
      let s : b.redis.State = (b.redis.incr w.now k w.redis).1 in
      ground (
        arith,
        b.redis.entry-incr w.now k (Key.http_limit prefix id) w.redis,
        b.redis.entry-expire w.now ttl k (Key.http_limit prefix id) s,
      )

  failed_login-Apart : (u : ℕ) (w : World) → Apart w (failed_login u w).1
  unfolding failed_login lock_out
  failed_login-Apart u w =
      let w' : World = (incr_with_expire (Key.login_attempts u) lockout_ttl w).1 in
      ground (
        arith,
        incr_with_expire-Apart (Key.login_attempts u) lockout_ttl w refl,
        b.redis.entry-set_ex w'.now lockout_ttl (Key.login_locked u) (Key.http_limit prefix id)
            (number 1) w'.redis,
      )

  successful_login-Apart : (t : ℕ) (u : User) (w : World) → Apart w (successful_login t u w).1
  unfolding successful_login
  successful_login-Apart t u w =
      let w' : World = record w { redis = b.redis.del (Key.login_attempts u.id) w.redis } in
      ground (
        arith,
        b.redis.entry-del (Key.login_attempts u.id) (Key.http_limit prefix id) w.redis,
        open_session-Apart t u w',
      )

  pub login-Apart : (t : ℕ) (email : String) (p : Text) (w : World) → Apart w (login t email p w).1
  unfolding login
  login-Apart t email p w =
      elim (Option-cases (find_one_user (λ u. str_eq u.email (stored_email email)) w)) [
        | inl e ↦ ground (arith, e)
        | inr (u, e) ↦ ground (arith, e, failed_login-Apart u.id w, successful_login-Apart t u w)
      ]

  send_reset-Apart :
      (t : ℕ) (email : String) (x : Option User) (w : World) → Apart w (send_reset t email x w).1
  unfolding send_reset
  send_reset-Apart t email none w = (refl, refl)
  send_reset-Apart t email (some u) w = (
    refl,
    ground (
      arith,
      b.redis.entry-set_ex w.now reset_token_ttl (Key.pwd_reset t) (Key.http_limit prefix id)
          (user_ref u.id) w.redis,
    ),
  )

  pub forgot_password-Apart :
      (t : ℕ) (email lowered : String) (w : World) → Apart w (forgot_password t email lowered w).1
  unfolding forgot_password
  forgot_password-Apart t email lowered w =
      let w' : World = (incr_with_expire (Key.forgot_limit lowered) 3600 w).1 in
      ground (
        arith,
        incr_with_expire-Apart (Key.forgot_limit lowered) 3600 w refl,
        send_reset-Apart t email (find_one_user (λ u. str_eq u.email (stored_email lowered)) w') w',
      )
