-- ===== src/RateLimiter/Window.antt =====
-- How many requests a window of the limiter lets through.
use node_chat_api.Prelude.{
  ℕ, ◌+◌, ◌*◌, ◌<◌, ◌≤◌, ◌≡◌, String, Option, none, some, true, List, [], ◌∷◌, length, arith, leb,
  if◌then◌else◌, refl,
}
use node_chat_api.Action.{Result, ok, err}
use node_chat_api.Backend.{Key, key_eq, key_eq_iff, Entry, live, number}
use node_chat_api.World.{Backend, World}
use node_chat_api.Auth.{incr_with_expire}
use node_chat_api.RateLimiter.{Limits, limit_key, rate_limiter}

key_eq_refl : (k : Key) → key_eq k k ≡ true
key_eq_refl k = (key_eq_iff k k).1 refl

module _ ⦃b : Backend⦄ where
  pub counter : ℕ → ℕ → Option Entry
  counter n d = some (record { value = number n; expires = some d })

  -- The script on a key that is not there, or whose time has come.
  incr_with_expire_first :
      (k : Key) (ttl : ℕ) (w : World)
      → live w.now (b.redis.entry w.redis k) ≡ none
      → ((incr_with_expire k ttl w).0 ≡ ok 1)
        × ((incr_with_expire k ttl w).1.now ≡ w.now)
        × (b.redis.entry (incr_with_expire k ttl w).1.redis k ≡ counter 1 (w.now + ttl * 1000))
  unfolding counter
  incr_with_expire_first k ttl w h =
      let s : b.redis.State = (b.redis.incr w.now k w.redis).1 in
      ground (
        arith,
        key_eq_refl k,
        b.redis.incr-get w.now k w.redis,
        b.redis.get-entry w.now k w.redis,
        b.redis.get-entry w.now k s,
        b.redis.entry-incr w.now k k w.redis,
        b.redis.entry-expire w.now ttl k k s,
      )

  incr_with_expire_next :
      (k : Key) (ttl n d : ℕ) (w : World)
      → b.redis.entry w.redis k ≡ counter n d
      → 1 ≤ n
      → w.now < d
      → ((incr_with_expire k ttl w).0 ≡ ok (n + 1))
        × ((incr_with_expire k ttl w).1.now ≡ w.now)
        × (b.redis.entry (incr_with_expire k ttl w).1.redis k ≡ counter (n + 1) d)
  unfolding counter
  incr_with_expire_next k ttl n d w h pos alive = ground (
    arith,
    key_eq_refl k,
    b.redis.incr-get w.now k w.redis,
    b.redis.get-entry w.now k w.redis,
    b.redis.entry-incr w.now k k w.redis,
  )

-- 1 for a request that goes on to its handler.
abbrev pub passed : Result Unit → ℕ
passed (ok _) = 1
passed (err _) = 0

abbrev pub at_most : ℕ → ℕ → ℕ
at_most max n = if leb n max then n else max

abbrev pub total_delay : List ℕ → ℕ
total_delay [] = 0
total_delay (ms ∷ rest) = ms + total_delay rest

module _ ⦃b : Backend⦄ (retry_after : ℕ → Key → b.redis.State → String) (l : Limits)
    (ip : Option String) where
  -- The number that pass, of requests from one address, each after a delay.
  pub count_passed : List ℕ → World → ℕ
  count_passed [] w = 0
  count_passed (ms ∷ rest) w =
      let (r, w') = rate_limiter retry_after l ip (record w { now = w.now + ms }) in
      passed r + count_passed rest w'

  unfoldable pub limiter_entry : World → Option Entry
  limiter_entry w = b.redis.entry w.redis (limit_key l ip)

  -- A request after `n` of the window.
  pub limiter_first :
      (w : World)
      → live w.now (limiter_entry w) ≡ none
      → (passed (rate_limiter retry_after l ip w).0 ≡ at_most l.max 1)
        × ((rate_limiter retry_after l ip w).1.now ≡ w.now)
        × (limiter_entry (rate_limiter retry_after l ip w).1
            ≡ counter 1 (w.now + l.window_sec * 1000))
  unfolding limiter_entry rate_limiter
  limiter_first w h = ground (arith, incr_with_expire_first (limit_key l ip) l.window_sec w h)

  pub limiter_next :
      (n d : ℕ) (w : World)
      → limiter_entry w ≡ counter n d
      → 1 ≤ n
      → w.now < d
      → (passed (rate_limiter retry_after l ip w).0 + at_most l.max n ≡ at_most l.max (n + 1))
        × ((rate_limiter retry_after l ip w).1.now ≡ w.now)
        × (limiter_entry (rate_limiter retry_after l ip w).1 ≡ counter (n + 1) d)
  unfolding limiter_entry rate_limiter
  limiter_next n d w h pos alive =
      ground (arith, incr_with_expire_next (limit_key l ip) l.window_sec n d w h pos alive)

  count_passed_next :
      (delays : List ℕ) (n d : ℕ) (w : World)
      → limiter_entry w ≡ counter n d
      → 1 ≤ n
      → w.now + total_delay delays < d
      → count_passed delays w + at_most l.max n ≡ at_most l.max (n + length delays)
  unfolding count_passed
  count_passed_next [] n d w h pos time = ground arith
  count_passed_next (ms ∷ rest) n d w h pos time =
      let v : World = record w { now = w.now + ms } in
      let (here, clock, count) = limiter_next n d v (unfold limiter_entry in h) pos (omega arith) in
      let w' : World = (rate_limiter retry_after l ip v).1 in
      let more = count_passed_next rest (n + 1) d w' count (omega arith) (omega (arith, clock)) in
      ground (arith, here, more)

  -- Of requests from one address that begin when no window is open for it, and all arrive within one
  -- window's length of the first, exactly the first `max` pass and the others are refused.
  pub count_passed_lem :
      (ms : ℕ) (delays : List ℕ) (w : World)
      → live (w.now + ms) (b.redis.entry w.redis (limit_key l ip)) ≡ none
      → total_delay delays < l.window_sec * 1000
      → count_passed (ms ∷ delays) w ≡ at_most l.max (1 + length delays)
  unfolding count_passed
  count_passed_lem ms delays w h time =
      let v : World = record w { now = w.now + ms } in
      let (here, clock, count) = limiter_first v (unfold limiter_entry in h) in
      let w' : World = (rate_limiter retry_after l ip v).1 in
      let more =
        count_passed_next delays 1 (v.now + l.window_sec * 1000) w' count (omega arith)
          (omega (arith, clock)) in
      omega (arith, here, more)
