-- ===== src/RateLimiter.antt =====
-- middleware/rateLimiter.js: a fixed window for each address.
pub mod Window
pub mod Confined
use node_chat_api.Prelude.{ℕ, String, Option, get_or, ltb, if◌then◌else◌}
use node_chat_api.Errors.{too_many_requests}
use node_chat_api.Action.{Action, pure, throw, gets, ◌>>=◌}
use node_chat_api.Backend.{Key}
use node_chat_api.World.{Backend, World}
use node_chat_api.Auth.{incr_with_expire}

-- The arguments of `createRateLimiter`.
pub record Limits : Type 0 where
  pub window_sec : ℕ
  pub max : ℕ
  pub key_prefix : String

abbrev pub auth_limits : Limits
auth_limits = record { window_sec = 900; max = 10; key_prefix = "auth" }

abbrev pub limit_key : Limits → Option String → Key
limit_key l ip = Key.http_limit l.key_prefix (get_or ip "unknown")

-- `retry_after` is the text with the seconds that TTL answers.
module _ ⦃b : Backend⦄ (retry_after : ℕ → Key → b.redis.State → String) where
  refuse : Key → Action World Unit
  refuse key = do
    message ← gets (λ w. retry_after w.now key w.redis)
    throw (too_many_requests message "RATE_LIMITED")

  -- The middleware that `createRateLimiter` returns, on the address of the request.
  unfoldable pub rate_limiter : Limits → Option String → Action World Unit
  unfolding refuse
  rate_limiter l ip = do
    count ← incr_with_expire (limit_key l ip) l.window_sec
    if ltb l.max count then refuse (limit_key l ip) else pure tt
