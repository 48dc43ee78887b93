-- ===== src/Worker/Links.antt =====
-- Where the links in mails lead.
use text.Mathlib.Text.{◌==◌ as str_eq}
use node_chat_api.Prelude.{
  ℕ, ◌+◌, ◌≡◌, String, none, some, [], ◌∷◌, ◌++◌, false, ltb, arith, refl, ==_refl,
}
use node_chat_api.Action.{err}
use node_chat_api.Models.{User}
use node_chat_api.Backend.{Key, counted, user_ref}
use node_chat_api.World.{stored_email, Backend, World, Job, find_one_user}
use node_chat_api.Auth.{forgot_password, verify_email}
use node_chat_api.Auth.Mails.{invalid_token}
use node_chat_api.Worker.{verification_email, process_email}

module _ ⦃b : Backend⦄ where
  -- A user who asks for a new password, while the counter of requests, this one included, is at most
  -- three, adds one job, and the worker calls for the mail that is meant for new accounts: the reset token, stored for an
  -- hour, goes out as a token that verifies addresses, and as that it is refused. (No verification token
  -- of the same spelling is stored.)
  pub forgot_password-process_email :
      (t : ℕ) (email lowered : String) (w : World) (u : User)
      → find_one_user (λ x. str_eq x.email (stored_email lowered)) w ≡ some u
      → ltb 3 (counted (b.redis.get w.now (Key.forgot_limit lowered) w.redis)) ≡ false
      → b.redis.entry w.redis (Key.email_verify t) ≡ none
      → let w' = (forgot_password t email lowered w).1 in
        (job : Job) × (w'.jobs ≡ w.jobs ++ job ∷ [])
        × (process_email job ≡ some (verification_email email t))
        × (b.redis.entry w'.redis (Key.pwd_reset t)
            ≡ some (record { value = user_ref u.id; expires = some (w.now + 3600000) }))
        × ((verify_email (some t) w').0 ≡ err invalid_token)
  unfolding forgot_password verify_email process_email
  forgot_password-process_email t email lowered w u e few fresh =
      let limit : Key = Key.forgot_limit lowered in
      let reset : Key = Key.pwd_reset t in
      let verify : Key = Key.email_verify t in
      let s : b.redis.State = (b.redis.incr w.now limit w.redis).1 in
      let s' : b.redis.State = b.redis.expire w.now limit 3600 s in
      let v = user_ref u.id in
      let old = b.redis.set_ex w.now reset v 3600 s in
      let new = b.redis.set_ex w.now reset v 3600 s' in
      (
        record { name = "send-verification"; to = email; token = t },
        ground (arith, b.redis.incr-get w.now limit w.redis),
        refl,
        ground (
          arith,
          ==_refl t,
          b.redis.incr-get w.now limit w.redis,
          b.redis.entry-set_ex w.now 3600 reset reset v s,
          b.redis.entry-set_ex w.now 3600 reset reset v s',
        ),
        ground (
          arith,
          b.redis.incr-get w.now limit w.redis,
          b.redis.entry-incr w.now limit verify w.redis,
          b.redis.entry-expire w.now 3600 limit verify s,
          b.redis.entry-set_ex w.now 3600 reset verify v s,
          b.redis.entry-set_ex w.now 3600 reset verify v s',
          b.redis.getdel-get w.now verify old,
          b.redis.getdel-get w.now verify new,
          b.redis.get-entry w.now verify old,
          b.redis.get-entry w.now verify new,
        ),
      )
