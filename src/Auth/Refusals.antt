-- ===== src/Auth/Refusals.antt =====
-- How the operations of the accounts fail, beside the refusal of the HTTP rate limiter.
use node_chat_api.Prelude.{
  ℕ, ◌≡◌, String, Option, none, some, Bool, false, arith, inl, inr, Option-cases, Bool-cases, refl,
}
use text.Mathlib.Text.{◌==◌ as str_eq}
use node_chat_api.Text.{Text}
use node_chat_api.Errors.{app}
use node_chat_api.Action.{Result, err}
use node_chat_api.Models.{User}
use node_chat_api.World.{stored_email, Backend, World, find_one_user}
use node_chat_api.Auth.{
  register, new_user, insert_user, login, failed_login, lock_out, successful_login, forgot_password,
  send_reset, sign_access_token, issue_refresh_token, fresh_user,
}

abbrev pub is_refusal : {A : Type 0} → Result A → Bool
is_refusal (err (app e)) = str_eq e.code "RATE_LIMITED"
is_refusal _ = false

module _ ⦃b : Backend⦄ where
  new_user-answers :
      (i t j salt : ℕ) (name email : String) (p : Text) (x : Option User) (w : World)
      → is_refusal (new_user i t j salt name email p x w).0 ≡ false
  unfolding new_user insert_user sign_access_token issue_refresh_token
  new_user-answers i t j salt name email p (some x) w = elim (Bool-cases (str_eq x.username name)) [
    | inl e ↦ rw e refl
    | inr e ↦ rw e refl
  ]
  new_user-answers i t j salt name email p none w =
      let user : User = fresh_user i name email (b.crypto.hash salt p) w.now in
      elim (Option-cases (b.users.create i user w.users)) [
        | inl e ↦ ground (arith, e)
        | inr (s, e) ↦ ground (arith, e)
      ]

  pub register-answers :
      (i t j salt : ℕ) (name email : String) (p : Text) (w : World)
      → is_refusal (register i t j salt name email p w).0 ≡ false
  unfolding register
  register-answers i t j salt name email p w = new_user-answers i t j salt name email p _ w

  failed_login-answers : (u : ℕ) (w : World) → is_refusal (failed_login u w).0 ≡ false
  unfolding failed_login lock_out
  failed_login-answers u w = ground arith

  successful_login-answers :
      (t : ℕ) (u : User) (w : World) → is_refusal (successful_login t u w).0 ≡ false
  unfolding successful_login sign_access_token issue_refresh_token
  successful_login-answers t u w = refl

  pub login-answers :
      (t : ℕ) (email : String) (p : Text) (w : World) → is_refusal (login t email p w).0 ≡ false
  unfolding login
  login-answers t email p w =
      elim (Option-cases (find_one_user (λ u. str_eq u.email (stored_email email)) w)) [
        | inl e ↦ rw e refl
        | inr (u, e) ↦
            ground (arith, e, failed_login-answers u.id w, successful_login-answers t u w)
      ]

  pub forgot_password-answers :
      (t : ℕ) (email lowered : String) (w : World)
      → is_refusal (forgot_password t email lowered w).0 ≡ false
  unfolding forgot_password send_reset
  forgot_password-answers t email lowered w = ground arith
