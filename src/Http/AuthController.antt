-- ===== src/Http/AuthController.antt =====
-- controllers/authController.js and the chains of routes/auth.js. A field that the body lacks is `none`.
pub mod Guards
pub mod Locked
use text.Mathlib.Text.{◌==◌ as str_eq}
use node_chat_api.Prelude.{ℕ, String, Option, none, some, length, ltb, if◌then◌else◌}
use node_chat_api.Text.{Text, is_empty}
use node_chat_api.Errors.{invalid}
use node_chat_api.Action.{Action, pure, or_throw, throw_if, ◌>>=◌, ◌>>◌}
use node_chat_api.Backend.{Key}
use node_chat_api.World.{Backend, World}
use node_chat_api.Auth
use node_chat_api.Auth.{Session}
use node_chat_api.Auth.Reset
use node_chat_api.Middleware.{Header, authenticate}
use node_chat_api.RateLimiter.{auth_limits, rate_limiter}
use node_chat_api.Http.{Reply, reply_success, reply_created}

-- `!s` fails: the text is there and not empty.
abbrev pub given : Option String → Option String
given none = none
given (some s) = if str_eq s "" then none else some s

abbrev pub given_text : Option Text → Option Text
given_text none = none
given_text (some s) = if is_empty s then none else some s

module _ ⦃b : Backend⦄ where
  unfoldable pub register :
      ℕ → ℕ → ℕ → ℕ → Option String → Option String → Option Text → Action World (Reply Session)
  register user_id token token_id salt username email password = do
    name ← or_throw (given username) (invalid "username, email, and password are required.")
    address ← or_throw (given email) (invalid "username, email, and password are required.")
    secret ← or_throw (given_text password) (invalid "username, email, and password are required.")
    throw_if (ltb (length secret) 8) (invalid "Password must be at least 8 characters.")
    result ← Auth.register user_id token token_id salt name address secret
    pure (reply_created result)

  unfoldable pub login : ℕ → Option String → Option Text → Action World (Reply Session)
  login token_id email password = do
    address ← or_throw (given email) (invalid "email and password are required.")
    secret ← or_throw (given_text password) (invalid "email and password are required.")
    result ← Auth.login token_id address secret
    pure (reply_success result)

  unfoldable pub refresh : ℕ → Option b.crypto.Token → Action World (Reply Session)
  refresh token_id refresh_token = do
    token ← or_throw refresh_token (invalid "refreshToken is required.")
    result ← Auth.refresh token_id token
    pure (reply_success result)

  -- `ApiResponse.success(null)`
  unfoldable pub logout : Option b.crypto.Token → Action World (Reply Unit)
  logout none = pure (reply_success tt)
  logout (some refresh_token) = do Auth.logout refresh_token; pure (reply_success tt)

  unfoldable pub verify_email : Option ℕ → Action World (Reply String)
  verify_email token = do
    Auth.verify_email token
    pure (reply_success "Email verified. Call POST /auth/refresh to update your access token")

  unfoldable pub resend_verification : ℕ → ℕ → Action World (Reply String)
  resend_verification token user_id = do
    Auth.resend_verification token user_id
    pure (reply_success "Verification email sent")

  abbrev pub reset_sent : Reply String
  reset_sent = reply_success "If that email is registered, a reset link has been sent."

  -- The address with its `toLowerCase`.
  unfoldable pub forgot_password : ℕ → Option (String × String) → Action World (Reply String)
  forgot_password token none = pure reset_sent
  forgot_password token (some (email, lowered)) =
      if str_eq email ""
      then pure reset_sent
      else do Auth.forgot_password token email lowered; pure reset_sent

  -- The fuel is that of the SCAN loop.
  unfoldable pub reset_password : ℕ → ℕ → Option ℕ → Text → Action World (Reply String)
  reset_password fuel salt token new_password = do
    Reset.reset_password fuel salt token new_password
    pure (reply_success "Password updated. All existing sessions have been invalidated.")

module _ ⦃b : Backend⦄ (retry_after : ℕ → Key → b.redis.State → String) where
  -- POST /register
  pub register_route :
      Option String
      → ℕ
      → ℕ
      → ℕ
      → ℕ
      → Option String
      → Option String
      → Option Text
      → Action World (Reply Session)
  unfolding register
  register_route ip user_id token token_id salt username email password = do
    rate_limiter retry_after auth_limits ip
    register user_id token token_id salt username email password

  -- POST /login
  pub login_route : Option String → ℕ → Option String → Option Text → Action World (Reply Session)
  unfolding login
  login_route ip token_id email password = do
    rate_limiter retry_after auth_limits ip
    login token_id email password

  -- POST /forgot-password
  pub forgot_password_route :
      Option String → ℕ → Option (String × String) → Action World (Reply String)
  unfolding forgot_password
  forgot_password_route ip token email = do
    rate_limiter retry_after auth_limits ip
    forgot_password token email

module _ ⦃b : Backend⦄ where
  -- POST /logout
  pub logout_route : Header → Option b.crypto.Token → Action World (Reply Unit)
  unfolding logout
  logout_route header refresh_token = do caller ← authenticate header; logout refresh_token

  -- POST /resend-verification
  pub resend_verification_route : Header → ℕ → Action World (Reply String)
  unfolding resend_verification
  resend_verification_route header token = do
    caller ← authenticate header
    resend_verification token caller.sub
