-- ===== src/RateLimiter/Confined.antt =====
-- The limiter, beside the rooms, the messages and the presence.
use node_chat_api.Prelude.{ℕ, String, Option, arith}
use node_chat_api.Backend.{Key}
use node_chat_api.World.{Backend}
use node_chat_api.Action.Keeps.{Keeps}
use node_chat_api.Auth.Confined.{chats}
use node_chat_api.RateLimiter.{Limits, rate_limiter, refuse}

module _ ⦃b : Backend⦄ (retry_after : ℕ → Key → b.redis.State → String) where
  pub rate_limiter-Keeps :
      (l : Limits) (ip : Option String) → Keeps chats (rate_limiter retry_after l ip)
  unfolding rate_limiter refuse
  rate_limiter-Keeps l ip = record { kept = λ w. ground arith }
