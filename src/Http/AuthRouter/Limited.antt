-- ===== src/Http/AuthRouter/Limited.antt =====
-- How many requests of one address, for registration, login and forgotten passwords, are not refused.
use node_chat_api.Prelude.{
  if◌then◌else◌, false, ℕ, ◌+◌, ◌<◌, ◌≤◌, ◌≡◌, String, Option, none, some, List, [], ◌∷◌, length,
  arith, get_or, inl, inr, ◌∙◌,
}
use node_chat_api.Backend.{Key, live}
use node_chat_api.World.{Backend, World}
use node_chat_api.Action.{Result}
use node_chat_api.Auth.Refusals.{
  is_refusal, register-answers, login-answers, forgot_password-answers,
}
use node_chat_api.Auth.Apart.{Apart, register-Apart, login-Apart, forgot_password-Apart}
use node_chat_api.Middleware.{Header}
use node_chat_api.RateLimiter.{auth_limits, limit_key, rate_limiter}
use node_chat_api.RateLimiter.Window.{
  counter, passed, at_most, limiter_entry, limiter_first, limiter_next,
}
use node_chat_api.Http.AuthController
use node_chat_api.Http.AuthController.Guards.{register_cases, login_cases}
use node_chat_api.Http.AuthRouter.{
  LimitedRequest, post_register, post_login, post_forgot_password, limited, limited_handler,
  auth_router,
}

abbrev pub time_of : List (ℕ × LimitedRequest) → ℕ
time_of [] = 0
time_of ((ms, q) ∷ rest) = ms + time_of rest

module _ ⦃b : Backend⦄ where
  limited_handler-Apart :
      (i : String) (q : LimitedRequest) (w : World) → Apart "auth" i w (limited_handler q w).1
  unfolding limited_handler AuthController.forgot_password
  limited_handler-Apart i (post_register user_id token token_id salt username email password) w =
      elim (register_cases user_id token token_id salt username email password w) [
        | inl (x, e) ↦ ground (arith, e)
        | inr (name, address, secret, e) ↦
            ground
              (arith, e, register-Apart "auth" i user_id token token_id salt name address secret w)
      ]
  limited_handler-Apart i (post_login token_id email password) w =
      elim (login_cases token_id email password w) [
        | inl (x, e) ↦ ground (arith, e)
        | inr (address, secret, e) ↦
            ground (arith, e, login-Apart "auth" i token_id address secret w)
      ]
  limited_handler-Apart i (post_forgot_password token none) w = ground arith
  limited_handler-Apart i (post_forgot_password token (some (email, lowered))) w =
      ground (arith, forgot_password-Apart "auth" i token email lowered w)

  limited_handler-answers :
      (q : LimitedRequest) (w : World) → is_refusal (limited_handler q w).0 ≡ false
  unfolding limited_handler AuthController.forgot_password
  limited_handler-answers (post_register user_id token token_id salt username email password) w =
      elim (register_cases user_id token token_id salt username email password w) [
        | inl (x, e) ↦ ground (arith, e)
        | inr (name, address, secret, e) ↦
            ground (arith, e, register-answers user_id token token_id salt name address secret w)
      ]
  limited_handler-answers (post_login token_id email password) w =
      elim (login_cases token_id email password w) [
        | inl (x, e) ↦ ground (arith, e)
        | inr (address, secret, e) ↦ ground (arith, e, login-answers token_id address secret w)
      ]
  limited_handler-answers (post_forgot_password token none) w = ground arith
  limited_handler-answers (post_forgot_password token (some (email, lowered))) w =
      ground (arith, forgot_password-answers token email lowered w)

-- 1 for an answer other than the limiter's error.
abbrev pub handled : Result ℕ → ℕ
handled r = if is_refusal r then 0 else 1

module _ ⦃b : Backend⦄ (retry_after : ℕ → Key → b.redis.State → String) (ip : Option String)
    (header : Header) where
  -- What the limiter answers, and what the router leaves behind.
  limited-Apart :
      (q : LimitedRequest) (w : World)
      → Apart "auth"
          (get_or ip "unknown")
          (rate_limiter retry_after auth_limits ip w).1
          (auth_router retry_after ip header (limited q) w).1
  unfolding auth_router
  limited-Apart q w =
      let v : World = (rate_limiter retry_after auth_limits ip w).1 in
      ground (arith, limited_handler-Apart (get_or ip "unknown") q v)

  handled-passed :
      (q : LimitedRequest) (w : World)
      → handled (auth_router retry_after ip header (limited q) w).0
        ≡ passed (rate_limiter retry_after auth_limits ip w).0
  unfolding auth_router rate_limiter
  handled-passed q w =
      let v : World = (rate_limiter retry_after auth_limits ip w).1 in
      ground (arith, limited_handler-answers q v)

  -- The number of requests that the router does not answer with the limiter's error, each after a delay.
  pub count_handled : List (ℕ × LimitedRequest) → World → ℕ
  count_handled [] w = 0
  count_handled ((ms, q) ∷ rest) w =
      let v : World = record w { now = w.now + ms } in
      let (r, w') = auth_router retry_after ip header (limited q) v in
      handled r + count_handled rest w'

  count_handled_next :
      (rest : List (ℕ × LimitedRequest)) (n d : ℕ) (w : World)
      → limiter_entry retry_after auth_limits ip w ≡ counter n d
      → 1 ≤ n
      → w.now + time_of rest < d
      → count_handled rest w + at_most 10 n ≡ at_most 10 (n + length rest)
  unfolding count_handled limiter_entry
  count_handled_next [] n d w h pos time = ground arith
  count_handled_next ((ms, q) ∷ rest) n d w h pos time =
      let v : World = record w { now = w.now + ms } in
      let (here, clock, count) =
        limiter_next retry_after auth_limits ip n d v h pos (omega arith) in
      let (later, kept) = limited-Apart q v in
      let w' : World = (auth_router retry_after ip header (limited q) v).1 in
      let more =
        count_handled_next rest (n + 1) d w' (kept ∙ count) (omega arith)
          (omega (arith, clock, later)) in
      ground (arith, here, more, handled-passed q v)

  -- Requests to register, to log in and for a new password, in any order, from one address that has no
  -- window open, each with what its handler does, all arriving within 15 minutes of the first: exactly
  -- the first ten, or all if there are fewer, are answered otherwise than by the limiter's 429.
  pub count_handled_lem :
      (ms : ℕ) (q : LimitedRequest) (rest : List (ℕ × LimitedRequest)) (w : World)
      → live (w.now + ms) (b.redis.entry w.redis (limit_key auth_limits ip)) ≡ none
      → time_of rest < 900000
      → count_handled ((ms, q) ∷ rest) w ≡ at_most 10 (1 + length rest)
  unfolding count_handled limiter_entry
  count_handled_lem ms q rest w h time =
      let v : World = record w { now = w.now + ms } in
      let (here, clock, count) = limiter_first retry_after auth_limits ip v h in
      let (later, kept) = limited-Apart q v in
      let w' : World = (auth_router retry_after ip header (limited q) v).1 in
      let more =
        count_handled_next rest 1 (v.now + 900000) w' (kept ∙ count) (omega arith)
          (omega (arith, clock, later)) in
      omega (arith, here, more, handled-passed q v)
