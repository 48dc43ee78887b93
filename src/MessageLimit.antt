-- ===== src/MessageLimit.antt =====
-- socket/rateLimiter.js: a sliding window for the messages of each user.
pub mod Tally
pub mod Window
pub mod Log
use node_chat_api.Prelude.{ℕ, ◌*◌, Bool, length, leb}
use node_chat_api.Action.{Action, ok}
use node_chat_api.Backend.{ZKey, msg_limit, stamp, live_zset}
use node_chat_api.World.{Backend, World}

abbrev pub message_window_sec : ℕ
message_window_sec = 60

abbrev pub message_max : ℕ
message_max = 30

module _ ⦃b : Backend⦄ where
  -- The pipeline, one command after another; `nonce` is what `Math.random` returns.
  unfoldable pub check_message_rate_limit : ℕ → ℕ → Action World Bool
  check_message_rate_limit nonce user_id w =
      let key : ZKey = msg_limit user_id in
      let trimmed : b.sets.State =
        b.sets.zremrangebyscore w.now key (message_window_sec * 1000) w.sets in
      let added : b.sets.State = b.sets.zadd w.now key w.now (stamp w.now nonce) trimmed in
      let count : ℕ = length (live_zset w.now (b.sets.zset added key)).items in
      let renewed : b.sets.State = b.sets.expire w.now key message_window_sec added in
      (ok (leb count message_max), record w { sets = renewed })
