-- ===== src/Worker.antt =====
-- workers/emailWorker.js: which mail a job of the queue asks for; and utils/email.js.
pub mod Links
pub mod NewAccounts
use text.Mathlib.Text.{◌==◌ as str_eq}
use node_chat_api.Prelude.{ℕ, String, Option, none, some, if◌then◌else◌}
use node_chat_api.Errors.{reference_error}
use node_chat_api.Action.{Action, throw}
use node_chat_api.World.{Job}

-- The calls `sendVerificationEmail(to, token)` and `sendPasswordResetEmail(to, token)` of utils/email.js.
pub data Mail : Type 0 where
  verification_email : String → ℕ → Mail
  password_reset_email : String → ℕ → Mail

-- The call that `processEmail` makes for a job; a job with another name fails.
pub process_email : Job → Option Mail
process_email job =
    if str_eq job.name "send-verification"
    then some (verification_email job.to job.token)
    else if str_eq job.name "send-reset"
    then some (password_reset_email job.to job.token)
    else none

-- Both functions use `transporter`, which is not declared.
pub send_verification_email : {S : Type 0} → String → ℕ → Action S Unit
send_verification_email to token = throw (reference_error "transporter")

pub send_password_reset_email : {S : Type 0} → String → ℕ → Action S Unit
send_password_reset_email to token = throw (reference_error "transporter")

unfoldable pub send : {S : Type 0} → Mail → Action S Unit
unfolding send_verification_email send_password_reset_email
send (verification_email to token) = send_verification_email to token
send (password_reset_email to token) = send_password_reset_email to token
