-- ===== src/Auth/Mails.antt =====
-- E-mail verification, its resending, and the forgotten password.
use text.Mathlib.Text.{◌==◌ as str_eq}
use node_chat_api.Prelude.{
  ℕ, ◌+◌, ◌≤◌, ◌≡◌, ◌≢◌, String, some, [], ◌∷◌, true, false, arith, ltb, length, ◌==◌,
  if◌then◌else◌, inl, inr, Option-cases, length-append,
}
use node_chat_api.Errors.{Error, validation, reference_error}
use node_chat_api.Action.{ok, err}
use node_chat_api.Models.{User}
use node_chat_api.Backend.{Key, counted, user_ref, updated}
use node_chat_api.World.{stored_email, Backend, World, find_user, find_one_user}
use node_chat_api.Auth.{verify_email, resend_verification, forgot_password}

abbrev pub invalid_token : Error
invalid_token = validation "Invalid or expired verification token." "INVALID_TOKEN"

module _ ⦃b : Backend⦄ where
  -- Resending a verification e-mail never succeeds: for every user it throws, and it enqueues no job.
  pub resend_verification_fails :
      (t u : ℕ) (w : World)
      → ((resend_verification t u w).0 ≢ ok tt) × ((resend_verification t u w).1.jobs ≡ w.jobs)
  unfolding resend_verification
  resend_verification_fails t u w = (ground arith, ground arith)

  -- The two names that are not declared where resending throws.
  abbrev pub undeclared : ℕ → String
  undeclared count = if ltb 3 count then "TooManyRequestsError" else "email"

  -- For a user who is not verified, it throws a `ReferenceError`: of the error class from the fourth
  -- request in the counter's life on, and of `email` before.
  pub resend_verification_unverified :
      (t u : ℕ) (w : World) (x : User)
      → find_user u w ≡ some x
      → x.verified ≡ false
      → (resend_verification t u w).0
        ≡ err (
            reference_error (undeclared (counted (b.redis.get w.now (Key.resend_limit u) w.redis))))
  unfolding resend_verification
  resend_verification_unverified t u w x e v =
      ground (arith, b.redis.incr-get w.now (Key.resend_limit u) w.redis)

  -- `forgotPassword` answers the same for every address, registered or not, and however often it is
  -- asked; it enqueues at most one job.
  pub forgot_password_uniform :
      (t : ℕ) (email lowered : String) (w : World)
      → ((forgot_password t email lowered w).0 ≡ ok tt)
        × (length (forgot_password t email lowered w).1.jobs ≤ length w.jobs + 1)
  unfolding forgot_password
  forgot_password_uniform t email lowered w =
      elim (Option-cases (find_one_user (λ u. str_eq u.email (stored_email lowered)) w)) [
        | inl e ↦ ground (
          arith,
          length-append w.jobs
              ((record { name = "send-verification"; to = email; token = t }) ∷ []),
        )
        | inr (u, e) ↦ ground (
          arith,
          length-append w.jobs
              ((record { name = "send-verification"; to = email; token = t }) ∷ []),
        )
      ]

  -- A verification token is good for one request, whoever sends the second and whatever the first did.
  pub verify_email_twice :
      (t : ℕ) (w : World)
      → (verify_email (some t) (verify_email (some t) w).1).0 ≡ err invalid_token
  unfolding verify_email
  verify_email_twice t w =
      let k : Key = Key.email_verify t in
      let s : b.redis.State = (b.redis.getdel w.now k w.redis).1 in
      ground (
        arith,
        b.redis.getdel-get w.now k w.redis,
        b.redis.getdel-del w.now k w.redis,
        b.redis.getdel-get w.now k s,
        b.redis.get-entry w.now k s,
        b.redis.entry-del k k w.redis,
      )

  -- A live verification token of a user marks that user as verified and changes no other user.
  pub verify_email_lem :
      (t u : ℕ) (w : World)
      → b.redis.get w.now (Key.email_verify t) w.redis ≡ some (user_ref u)
      → ((verify_email (some t) w).0 ≡ ok tt)
        × ((v : ℕ)
            → find_user v (verify_email (some t) w).1 ≡ (
                if u == v
                then updated (λ _. true) (λ x. record x { verified = true }) (find_user u w)
                else find_user v w))
  unfolding verify_email
  verify_email_lem t u w e = (
    ground (arith, b.redis.getdel-get w.now (Key.email_verify t) w.redis),
    (λ v. ground (
      arith,
      b.redis.getdel-get w.now (Key.email_verify t) w.redis,
      b.users.find_by_id-find_one_and_update u v (λ _. true) (λ x. record x { verified = true })
          w.users,
    )),
  )
