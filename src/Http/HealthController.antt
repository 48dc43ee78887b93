-- ===== src/Http/HealthController.antt =====
-- controllers/healthController.js. A ping settles after some milliseconds, or never.
use node_chat_api.Prelude.{ℕ, ◌+◌, String, Bool, false, ◌&&◌, ltb, if◌then◌else◌}
use Prim.Native.Nat.{min}

pub data Ping : Type 0 where
  resolves : ℕ → Ping
  rejects : ℕ → Ping
  hangs : Ping

-- The status and the JSON of a reply.
pub record Readiness : Type 0 where
  pub status : ℕ
  pub summary : String
  pub mongodb : String
  pub redis : String

-- Whether the ping resolves before the timer rejects, and the time until the first of the two. A ping
-- that takes as long as the timer loses.
with_timeout : Ping → ℕ → Bool × ℕ
with_timeout (resolves t) ms = (ltb t ms, min t ms)
with_timeout (rejects t) ms = (false, min t ms)
with_timeout hangs ms = (false, ms)

pub liveness : ℕ × String
liveness = (200, "ok")

abbrev check : Bool → String
check ok = if ok then "ok" else "error"

-- The reply, and how long the request takes: the second ping waits for the first.
unfoldable pub readiness : Ping → Ping → Readiness × ℕ
unfolding with_timeout
readiness mongo redis =
    let (mongo_ok, t) = with_timeout mongo 2000 in
    let (redis_ok, u) = with_timeout redis 2000 in
    (
      record {
        status = if mongo_ok && redis_ok then 200 else 503;
        summary = if mongo_ok && redis_ok then "ok" else "degraded";
        mongodb = check mongo_ok;
        redis = check redis_ok;
      },
      t + u,
    )
