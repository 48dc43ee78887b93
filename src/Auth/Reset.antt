-- ===== src/Auth/Reset.antt =====
-- authService.js: `invalidateAllRefreshTokens` and `resetPassword`. The SCAN loop takes fuel, and `none`
-- means that the fuel ran out.
pub mod Revocation
pub mod Confined
use node_chat_api.Prelude.{
  ℕ, zero, suc, Option, none, some, List, [], ◌∷◌, ◌++◌, true, length, ltb, ◌==◌, if◌then◌else◌,
}
use node_chat_api.Text.{Text}
use node_chat_api.Errors.{validation}
use node_chat_api.Action.{Action, ok, throw, or_throw, throw_if, ◌>>=◌, ◌>>◌}
use node_chat_api.Backend.{Key}
use node_chat_api.World.{Backend, World, update_user, redis_getdel}
use node_chat_api.Auth.{user_of}

module _ ⦃b : Backend⦄ where
  -- `do { … } while (cursor !== '0')`
  pub scan_keys : ℕ → ℕ → ℕ → List Key → b.redis.State → Option (List Key)
  scan_keys zero user_id cursor keys s = none
  scan_keys (suc fuel) user_id cursor keys s =
      let (next, batch) = b.redis.scan_refresh user_id cursor s in
      let rest = scan_keys fuel user_id next (keys ++ batch) s in
      if next == 0 then some (keys ++ batch) else rest

  -- `redis.del(...keys)`
  pub del_keys : List Key → b.redis.State → b.redis.State
  del_keys [] s = s
  del_keys (k ∷ ks) s = del_keys ks (b.redis.del k s)

  del_scanned : Option (List Key) → Action World (Option Unit)
  unfolding del_keys
  del_scanned none w = (ok none, w)
  del_scanned (some ks) w = (ok (some tt), record w { redis = del_keys ks w.redis })

  pub invalidate_all_refresh_tokens : ℕ → ℕ → Action World (Option Unit)
  unfolding scan_keys del_scanned
  invalidate_all_refresh_tokens fuel user_id w = del_scanned (scan_keys fuel user_id 0 [] w.redis) w

  pub reset_password : ℕ → ℕ → Option ℕ → Text → Action World (Option Unit)
  unfolding invalidate_all_refresh_tokens
  reset_password fuel salt none new_password =
      throw (validation "Token is required" "MISSING_TOKEN")
  reset_password fuel salt (some token) new_password = do
    throw_if (ltb (length new_password) 8)
        (validation "Password must be at least 8 characters." "WEAK_PASSWORD")
    found ← redis_getdel (Key.pwd_reset token)
    user_id ←
        or_throw (user_of found) (validation "Invalid or expired reset token." "INVALID_TOKEN")
    update_user user_id (λ _. true)
        (λ u. record u { password_hash = b.crypto.hash salt new_password })
    invalidate_all_refresh_tokens fuel user_id
