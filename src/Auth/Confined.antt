-- ===== src/Auth/Confined.antt =====
-- The operations of the accounts, beside the rooms, the messages and the presence.
use node_chat_api.Prelude.{ℕ, String, Option, none, some, arith, refl}
use node_chat_api.Text.{Text}
use node_chat_api.Models.{User}
use node_chat_api.World.{Backend, World}
use node_chat_api.Action.Keeps.{Keeps}
use node_chat_api.Auth.{
  register, new_user, insert_user, login, failed_login, lock_out, successful_login, forgot_password,
  send_reset, sign_access_token, issue_refresh_token, refresh, validate_refresh_token,
  check_payload, check_key, revoke_refresh_token, verify_email, logout, revoke_checked,
  resend_verification,
}

module _ ⦃b : Backend⦄ where
  abbrev pub chats : World → b.rooms.State × b.messages.State × b.sets.State
  chats w = (w.rooms, w.messages, w.sets)

  new_user-Keeps :
      (i t j salt : ℕ) (name email : String) (p : Text) (x : Option User)
      → Keeps chats (new_user i t j salt name email p x)
  unfolding new_user insert_user sign_access_token issue_refresh_token
  new_user-Keeps i t j salt name email p (some x) = record { kept = λ w. refl }
  new_user-Keeps i t j salt name email p none = record { kept = λ w. ground arith }

  pub register-Keeps :
      (i t j salt : ℕ) (name email : String) (p : Text)
      → Keeps chats (register i t j salt name email p)
  unfolding register
  register-Keeps i t j salt name email p = record {
    kept = λ w. (new_user-Keeps i t j salt name email p _).kept w;
  }

  pub login-Keeps : (t : ℕ) (email : String) (p : Text) → Keeps chats (login t email p)
  unfolding login failed_login lock_out successful_login sign_access_token issue_refresh_token
  login-Keeps t email p = record { kept = λ w. ground arith }

  pub refresh-Keeps : (t : ℕ) (token : b.crypto.Token) → Keeps chats (refresh t token)
  unfolding refresh validate_refresh_token check_payload check_key revoke_refresh_token
      sign_access_token issue_refresh_token
  refresh-Keeps t token = record { kept = λ w. ground arith }

  pub verify_email-Keeps : (t : Option ℕ) → Keeps chats (verify_email t)
  unfolding verify_email
  verify_email-Keeps none = record { kept = λ w. refl }
  verify_email-Keeps (some t) = record { kept = λ w. ground arith }

  pub logout-Keeps : (token : b.crypto.Token) → Keeps chats (logout token)
  unfolding logout revoke_checked revoke_refresh_token validate_refresh_token check_payload
      check_key
  logout-Keeps token = record { kept = λ w. ground arith }

  pub resend_verification-Keeps : (t u : ℕ) → Keeps chats (resend_verification t u)
  unfolding resend_verification
  resend_verification-Keeps t u = record { kept = λ w. ground arith }

  pub forgot_password-Keeps :
      (t : ℕ) (email lowered : String) → Keeps chats (forgot_password t email lowered)
  unfolding forgot_password send_reset
  forgot_password-Keeps t email lowered = record { kept = λ w. ground arith }
