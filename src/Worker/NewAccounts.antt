-- ===== src/Worker/NewAccounts.antt =====
-- From a registration to a verified address, by the mail that is sent.
use text.Mathlib.Text.{◌==◌ as str_eq}
use node_chat_api.Prelude.{
  ℕ, ◌+◌, ◌<◌, ◌≡◌, String, some, [], ◌∷◌, ◌++◌, true, ◌||◌, arith, refl, ◌==◌, ==_refl,
  if◌then◌else◌, inl, inr, Option-cases,
}
use node_chat_api.Text.{Text}
use node_chat_api.Action.{ok}
use node_chat_api.Models.{User}
use node_chat_api.Backend.{Key, user_ref, valid}
use node_chat_api.World.{stored_name, stored_email, Backend, World, Job, find_one_user, find_user}
use node_chat_api.Auth.{verify_email, register, Session, fresh_user}
use node_chat_api.Auth.Mails.{verify_email_lem}
use node_chat_api.Worker.{verification_email, process_email}

abbrev pub mail_job : String → ℕ → Job
mail_job email token = record { name = "send-verification"; to = email; token = token }

module _ ⦃b : Backend⦄ where
  abbrev pub account : ℕ → ℕ → String → String → Text → World → User
  account i salt username email password w =
      fresh_user i (stored_name username) (stored_email email) (b.crypto.hash salt password) w.now

  registered :
      (i token jti salt : ℕ) (username email : String) (password : Text) (w : World)
      (session : Session)
      → (register i token jti salt username email password w).0 ≡ ok session
      → let w' = (register i token jti salt username email password w).1 in
        (w'.now ≡ w.now)
        × (w'.jobs ≡ w.jobs ++ mail_job email token ∷ [])
        × (b.redis.entry w'.redis (Key.email_verify token)
            ≡ some (record { value = user_ref i; expires = some (w.now + 86400000) }))
        × (b.users.create i (account i salt username email password w) w.users ≡ some w'.users)
  unfolding register
  registered i token jti salt username email password w session h =
      let u : User = account i salt username email password w in
      let key : Key = Key.email_verify token in
      let s = b.redis.set_ex w.now key (user_ref i) 86400 w.redis in
      elim (Option-cases (
        find_one_user
          (λ u. str_eq u.username (stored_name username) || str_eq u.email (stored_email email))
          w)) [
            | inr (x, e) ↦ absurd (ground arith)
            | inl free ↦ elim (Option-cases (b.users.create i u w.users)) [
              | inl clash ↦ absurd (ground arith)
              | inr (t, e) ↦ (
                ground arith,
                ground arith,
                ground (
                  arith,
                  ==_refl token,
                  b.redis.entry-set_ex w.now 604800 (Key.refresh i jti) key valid s,
                  b.redis.entry-set_ex w.now 86400 key key (user_ref i) w.redis,
                ),
                ground arith,
              )
            ]
          ]

  -- A registration that succeeds adds one job, for which the worker calls for a verification mail to the
  -- address as it was given; the token in it, followed within 24 hours, verifies the new account, which is
  -- stored with the trimmed name, with the address trimmed and in lower case, and with the hash of the
  -- password, and no other account is changed by either.
  pub verify_email-register :
      (i token jti salt ms : ℕ) (username email : String) (password : Text) (w : World)
      (session : Session)
      → (register i token jti salt username email password w).0 ≡ ok session
      → ms < 86400000
      → let w' = (register i token jti salt username email password w).1 in
        let out = verify_email (some token) (record w' { now = w.now + ms }) in
        (w'.jobs ≡ w.jobs ++ mail_job email token ∷ [])
        × (process_email (mail_job email token) ≡ some (verification_email email token))
        × (out.0 ≡ ok tt)
        × ((v : ℕ)
            → find_user v out.1 ≡ (
                if i == v
                then some (record (account i salt username email password w) { verified = true })
                else find_user v w))
  unfolding process_email
  verify_email-register i token jti salt ms username email password w session h time =
      let w' : World = (register i token jti salt username email password w).1 in
      let later : World = record w' { now = w.now + ms } in
      let u : User = account i salt username email password w in
      let (clock, jobs, entry, stored) =
        registered i token jti salt username email password w session h in
      let (done, effect) =
        verify_email_lem token i later
          (ground (arith, b.redis.get-entry (w.now + ms) (Key.email_verify token) w'.redis)) in
      (
        jobs,
        refl,
        done,
        (λ v. ground (
          arith,
          effect v,
          b.users.find_by_id-create i i u w.users w'.users stored,
          b.users.find_by_id-create i v u w.users w'.users stored,
        )),
      )
