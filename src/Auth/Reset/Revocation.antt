-- ===== src/Auth/Reset/Revocation.antt =====
-- A password reset ends every session of its user and of nobody else.
use node_chat_api.Prelude.{
  ℕ, zero, suc, ◌≤◌, ◌≡◌, refl, Option, none, some, List, [], ◌∷◌, ◌++◌, true, length, arith,
  is_some, ◌==◌, if◌then◌else◌, inl, inr, Option-cases,
}
use mathlib.Core.List.{append_assoc, append-nil}
use node_chat_api.Text.{Text}
use node_chat_api.Action.{ok}
use node_chat_api.Models.{User}
use node_chat_api.Backend.{Key, Entry, Iterates, flat, lists, is_refresh_of, user_ref}
use node_chat_api.World.{Backend, World, find_user}
use node_chat_api.Auth.Reset.{scan_keys, del_keys, invalidate_all_refresh_tokens, reset_password}

module _ ⦃b : Backend⦄ where
  -- With a round of fuel for each batch, the loop returns what the batches hold.
  scan_keys_lem :
      (u : ℕ) (s : b.redis.State) (batches : List (List Key)) (fuel cursor : ℕ) (keys : List Key)
      → Iterates (λ c. b.redis.scan_refresh u c s) cursor batches
      → length batches ≤ fuel
      → scan_keys fuel u cursor keys s ≡ some (keys ++ flat batches)
  unfolding scan_keys
  scan_keys_lem u s [] fuel cursor keys h enough = absurd h
  scan_keys_lem u s (batch ∷ rest) zero cursor keys h enough = absurd (omega arith)
  scan_keys_lem u s (batch ∷ []) (suc fuel) cursor keys h enough = ground (arith, append-nil batch)
  scan_keys_lem u s (batch ∷ more ∷ rest) (suc fuel) cursor keys h enough = ground (
    arith,
    scan_keys_lem u s (more ∷ rest) fuel (b.redis.scan_refresh u cursor s).0 (keys ++ batch) h.2,
    append_assoc keys batch (flat (more ∷ rest)),
  )

  entry-del_keys :
      (ks : List Key) (j : Key) (s : b.redis.State)
      → b.redis.entry (del_keys ks s) j ≡ (if lists ks j then none else b.redis.entry s j)
  unfolding del_keys
  entry-del_keys [] j s = refl
  entry-del_keys (k ∷ ks) j s =
      ground (arith, entry-del_keys ks j (b.redis.del k s), b.redis.entry-del k j s)

  abbrev pub session : ℕ → ℕ → World → Option Entry
  session u t w = b.redis.entry w.redis (Key.refresh u t)

  -- The keys that a complete iteration returned are gone, and no other key of a session.
  deletes_sessions :
      (u v t : ℕ) (ks : List Key) (s : b.redis.State)
      → ((k : Key)
          → is_refresh_of u k ≡ true
          → is_some (b.redis.entry s k) ≡ true
          → lists ks k ≡ true)
      → ((k : Key) → lists ks k ≡ true → is_refresh_of u k ≡ true)
      → b.redis.entry (del_keys ks s) (Key.refresh v t)
        ≡ (if v == u then none else b.redis.entry s (Key.refresh v t))
  deletes_sessions u v t ks s all only = elim (Option-cases (b.redis.entry s (Key.refresh v t))) [
    | inl e ↦ ground (arith, entry-del_keys ks (Key.refresh v t) s)
    | inr (x, e) ↦ ground (
      arith,
      entry-del_keys ks (Key.refresh v t) s,
      all (Key.refresh v t),
      only (Key.refresh v t),
    )
  ]

  -- The number of rounds that an iteration in this state takes.
  unfoldable pub scan_rounds : ℕ → World → ℕ
  scan_rounds u w = length (b.redis.scan_refresh-complete u w.redis).0

  invalidate_all_lem :
      (fuel u : ℕ) (w : World)
      → scan_rounds u w ≤ fuel
      → ((invalidate_all_refresh_tokens fuel u w).0 ≡ ok (some tt))
        × ((invalidate_all_refresh_tokens fuel u w).1.users ≡ w.users)
        × ((v t : ℕ)
            → session v t (invalidate_all_refresh_tokens fuel u w).1
              ≡ (if v == u then none else session v t w))
  unfolding invalidate_all_refresh_tokens scan_rounds
  invalidate_all_lem fuel u w enough =
      let (batches, steps, all, only) = b.redis.scan_refresh-complete u w.redis in
      let scanned = scan_keys_lem u w.redis batches fuel 0 [] steps enough in
      (
        ground (arith, scanned),
        ground (arith, scanned),
        (λ v t. ground (arith, scanned, deletes_sessions u v t (flat batches) w.redis all only)),
      )

  -- The state when the sessions are about to be ended.
  abbrev changed_password : ℕ → ℕ → ℕ → Text → World → World
  changed_password salt token u password w = record w {
    redis = b.redis.del (Key.pwd_reset token) w.redis;
    users =
        (b.users.find_one_and_update u (λ _. true)
          (λ x. record x { password_hash = b.crypto.hash salt password }) w.users).1;
  }

  reset_password_steps :
      (fuel salt token u : ℕ) (password : Text) (w : World)
      → b.redis.get w.now (Key.pwd_reset token) w.redis ≡ some (user_ref u)
      → 8 ≤ length password
      → reset_password fuel salt (some token) password w
        ≡ invalidate_all_refresh_tokens fuel u (changed_password salt token u password w)
  unfolding reset_password
  reset_password_steps fuel salt token u password w e long = ground (
    arith,
    b.redis.getdel-get w.now (Key.pwd_reset token) w.redis,
    b.redis.getdel-del w.now (Key.pwd_reset token) w.redis,
  )

  -- A password reset with a live token and a password of eight characters or more succeeds once the
  -- loop has its fuel: the user's hash is that of the new password, no refresh token of the user is left,
  -- and those of every other user stay.
  pub reset_password_lem :
      (fuel salt token u : ℕ) (password : Text) (user : User) (w : World)
      → b.redis.get w.now (Key.pwd_reset token) w.redis ≡ some (user_ref u)
      → find_user u w ≡ some user
      → 8 ≤ length password
      → scan_rounds u (record w { redis = b.redis.del (Key.pwd_reset token) w.redis }) ≤ fuel
      → let (r, w') = reset_password fuel salt (some token) password w in
        (r ≡ ok (some tt))
        × (find_user u w' ≡ some (record user { password_hash = b.crypto.hash salt password }))
        × ((v t : ℕ) → session v t w' ≡ (if v == u then none else session v t w))
  unfolding scan_rounds
  reset_password_lem fuel salt token u password user w live_token e long enough =
      let hashed : User → User = λ x. record x { password_hash = b.crypto.hash salt password } in
      let (done, same, sessions) =
        invalidate_all_lem fuel u (changed_password salt token u password w) enough in
      rw (reset_password_steps fuel salt token u password w live_token long) (
        done,
        ground (arith, same, b.users.find_by_id-find_one_and_update u u (λ _. true) hashed w.users),
        (λ v t. ground (
          arith,
          sessions v t,
          b.redis.entry-del (Key.pwd_reset token) (Key.refresh v t) w.redis,
        )),
      )
