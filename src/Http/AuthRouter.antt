-- ===== src/Http/AuthRouter.antt =====
-- routes/auth.js: the router as one function, from a request to its middleware and its handler. Of the
-- reply, only the status is kept.
pub mod Limited
pub mod Confined
use node_chat_api.Prelude.{ℕ, String, Option}
use node_chat_api.Text.{Text}
use node_chat_api.Action.{Action, pure, ◌>>=◌, ◌>>◌}
use node_chat_api.Backend.{Key}
use node_chat_api.World.{Backend, World}
use node_chat_api.Middleware.{Header, authenticate}
use node_chat_api.RateLimiter.{auth_limits, rate_limiter}
use node_chat_api.Http.{Reply}
use node_chat_api.Http.AuthController

-- The requests on routes with the limiter: /register, /login, /forgot-password.
pub data LimitedRequest : Type 0 where
  post_register : ℕ → ℕ → ℕ → ℕ → Option String → Option String → Option Text → LimitedRequest
  post_login : ℕ → Option String → Option Text → LimitedRequest
  post_forgot_password : ℕ → Option (String × String) → LimitedRequest

module _ ⦃b : Backend⦄ where
  pub data AuthRequest : Type 0 where
    limited : LimitedRequest → AuthRequest
    post_refresh : ℕ → Option b.crypto.Token → AuthRequest
    post_logout : Option b.crypto.Token → AuthRequest
    get_verify_email : Option ℕ → AuthRequest
    post_resend_verification : ℕ → AuthRequest
    post_reset_password : ℕ → ℕ → Option ℕ → Text → AuthRequest

  abbrev pub status_of : {A : Type 0} → Action World (Reply A) → Action World ℕ
  status_of m = do reply ← m; pure reply.status

  pub limited_handler : LimitedRequest → Action World ℕ
  limited_handler (post_register user_id token token_id salt username email password) =
      status_of (AuthController.register user_id token token_id salt username email password)
  limited_handler (post_login token_id email password) =
      status_of (AuthController.login token_id email password)
  limited_handler (post_forgot_password token email) =
      status_of (AuthController.forgot_password token email)

module _ ⦃b : Backend⦄ (retry_after : ℕ → Key → b.redis.State → String) where
  -- Of the address `ip` and with the header `Authorization`.
  pub auth_router : Option String → Header → AuthRequest → Action World ℕ
  auth_router ip header (limited q) = do rate_limiter retry_after auth_limits ip; limited_handler q
  auth_router ip header (post_refresh token_id refresh_token) =
      status_of (AuthController.refresh token_id refresh_token)
  auth_router ip header (post_logout refresh_token) = do
    caller ← authenticate header
    status_of (AuthController.logout refresh_token)
  auth_router ip header (get_verify_email token) = status_of (AuthController.verify_email token)
  auth_router ip header (post_resend_verification token) = do
    caller ← authenticate header
    status_of (AuthController.resend_verification token caller.sub)
  auth_router ip header (post_reset_password fuel salt token new_password) =
      status_of (AuthController.reset_password fuel salt token new_password)
