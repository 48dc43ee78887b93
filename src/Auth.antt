-- ===== src/Auth.antt =====
-- services/authService.js and utils/tokens.js. `LockedError`, `NotFoundError` and
-- `TooManyRequestsError` are not imported by authService.js, so a throw of one of them throws the
-- `ReferenceError` of its name.
pub mod Reset
pub mod Mails
pub mod Lockout
pub mod Sessions
pub mod Apart
pub mod Refusals
pub mod Race
pub mod Confined
use text.Mathlib.Text.{◌==◌ as str_eq}
use node_chat_api.Prelude.{
  ℕ, zero, suc, ◌+◌, String, Option, none, some, List, [], ◌∷◌, ◌++◌, Bool, true, false, not, ◌||◌,
  length, is_some, leb, ltb, ◌==◌, if◌then◌else◌,
}
use node_chat_api.Text.{Text}
use node_chat_api.Errors.{
  Error, validation, conflict, unauthorized, reference_error, duplicate_key, schema_error,
}
use node_chat_api.Action.{
  Action, Result, ok, err, pure, throw, gets, or_throw, throw_if, ◌>>=◌, ◌>>◌,
}
use node_chat_api.Models.{User}
use node_chat_api.Backend.{Key, Value, user_ref, number, valid}
use node_chat_api.World.{
  stored_name, stored_email, Backend, World, Job, Payload, find_user, find_one_user, update_user,
  on_redis, redis_get, redis_getdel, redis_set_ex, redis_del, enqueue, AccessClaims,
}

abbrev pub verify_token_ttl : ℕ
verify_token_ttl = 86400

abbrev pub reset_token_ttl : ℕ
reset_token_ttl = 3600

abbrev pub lockout_threshold : ℕ
lockout_threshold = 5

abbrev pub lockout_ttl : ℕ
lockout_ttl = 900

abbrev pub refresh_ttl_sec : ℕ
refresh_ttl_sec = 604800

abbrev pub access_ttl_sec : ℕ
access_ttl_sec = 900

-- `parseInt` and comparison never meet another value under the keys of users.
abbrev pub user_of : Option Value → Option ℕ
user_of (some (user_ref u)) = some u
user_of _ = none

abbrev invalid_credentials : Error
invalid_credentials = unauthorized "Invalid email or password." "INVALID_CREDENTIALS"

-- What `User.create` adds to the fields given.
abbrev pub fresh_user : ℕ → String → String → String → ℕ → User
fresh_user user_id username email password_hash now = record {
  id = user_id;
  username = username;
  email = email;
  password_hash = password_hash;
  display_name = none;
  avatar_url = none;
  verified = false;
  created_at = now;
}

module _ ⦃b : Backend⦄ where
  -- The pair of tokens that a login returns.
  pub record Session : Type 0 where
    pub access_token : b.crypto.Token
    pub refresh_token : b.crypto.Token

  abbrev redis_incr : Key → Action World ℕ
  redis_incr k w = let (c, s) = b.redis.incr w.now k w.redis in (ok c, record w { redis = s })

  abbrev redis_expire : Key → ℕ → Action World Unit
  redis_expire k ttl w = (ok tt, record w { redis = b.redis.expire w.now k ttl w.redis })

  -- The Lua scripts FORGOT_INCR_LUA and RESEND_INCR_LUA, and INCR_WITH_EXPIRE of the rate limiter.
  abbrev pub incr_with_expire : Key → ℕ → Action World ℕ
  incr_with_expire k ttl = do
    c ← redis_incr k
    if c == 1 then redis_expire k ttl else pure tt
    pure c

  sign_access_token : User → Action World b.crypto.Token
  sign_access_token user w = (
    ok (
        b.crypto.sign_access
          (record { sub = user.id; username = user.username; verified = user.verified })
          access_ttl_sec w.now),
    w,
  )

  -- `token_id` is the uuid.
  unfoldable pub issue_refresh_token : ℕ → ℕ → Action World b.crypto.Token
  issue_refresh_token token_id user_id = do
    redis_set_ex (Key.refresh user_id token_id) valid refresh_ttl_sec
    gets (λ w. b.crypto.sign_refresh user_id token_id refresh_ttl_sec w.now)

  -- The user's and the token's id, of a token whose signature and type are right and whose key is
  -- there.
  check_key : Payload → Action World (Option (ℕ × ℕ))
  check_key p = do
    found ← redis_get (Key.refresh p.sub p.jti)
    pure (if is_some found then some (p.sub, p.jti) else none)

  check_payload : Option Payload → Action World (Option (ℕ × ℕ))
  unfolding check_key
  check_payload none = pure none
  check_payload (some p) = if p.is_refresh then check_key p else pure none

  pub validate_refresh_token : b.crypto.Token → Action World (Option (ℕ × ℕ))
  unfolding check_payload
  validate_refresh_token token = do
    payload ← gets (λ w. b.crypto.verify_refresh w.now token)
    check_payload payload

  pub revoke_refresh_token : ℕ → ℕ → Action World Unit
  revoke_refresh_token user_id token_id = redis_del (Key.refresh user_id token_id)

  abbrev open_session : ℕ → User → Action World Session
  open_session token_id user = do
    access ← sign_access_token user
    refresh ← issue_refresh_token token_id user.id
    pure (record { access_token = access; refresh_token = refresh })

  abbrev taken : String → User → Error
  taken username user =
      if str_eq user.username username
      then conflict "Username is already taken." "ALREADY_EXISTS"
      else conflict "Email is already taken." "ALREADY_EXISTS"

  -- `required` refuses an empty string.
  insert_user : ℕ → User → Action World Unit
  insert_user user_id user w =
      if str_eq user.username "" || str_eq user.email ""
      then (err schema_error, w)
      else elim (b.users.create user_id user w.users) [
        | none ↦ (err duplicate_key, w)
        | some s ↦ (ok tt, record w { users = s })
      ]

  pub new_user : ℕ → ℕ → ℕ → ℕ → String → String → Text → Option User → Action World Session
  unfolding insert_user sign_access_token issue_refresh_token
  new_user user_id token token_id salt username email password (some existing) =
      throw (taken username existing)
  new_user user_id token token_id salt username email password none = do
    now ← gets (λ w. w.now)
    let user =
        fresh_user user_id (stored_name username) (stored_email email) (b.crypto.hash salt password)
          now
    insert_user user_id user
    redis_set_ex (Key.email_verify token) (user_ref user_id) verify_token_ttl
    enqueue (record { name = "send-verification"; to = email; token = token })
    open_session token_id user

  -- The new document's id, the e-mail token, the uuid and the salt are made by the libraries.
  unfoldable pub register : ℕ → ℕ → ℕ → ℕ → String → String → Text → Action World Session
  unfolding new_user
  register user_id token token_id salt username email password = do
    existing ← gets (
        find_one_user
          (λ u. str_eq u.username (stored_name username) || str_eq u.email (stored_email email)))
    new_user user_id token token_id salt username email password existing

  unfoldable pub verify_email : Option ℕ → Action World Unit
  verify_email none = throw (validation "Token is required." "MISSING_TOKEN")
  verify_email (some token) = do
    found ← redis_getdel (Key.email_verify token)
    user_id ←
        or_throw (user_of found)
          (validation "Invalid or expired verification token." "INVALID_TOKEN")
    update_user user_id (λ _. true) (λ u. record u { verified = true })
    pure tt

  -- The last statement reads `email`, which is not declared.
  pub resend_verification : ℕ → ℕ → Action World Unit
  resend_verification token user_id = do
    found ← gets (find_user user_id)
    user ← or_throw found (reference_error "NotFoundError")
    throw_if user.verified (validation "Email is already verified." "ALREADY_VERIFIED")
    count ← incr_with_expire (Key.resend_limit user_id) 3600
    throw_if (ltb 3 count) (reference_error "TooManyRequestsError")
    redis_set_ex (Key.email_verify token) (user_ref user_id) verify_token_ttl
    throw (reference_error "email")

  lock_out : ℕ → Action World Session
  lock_out user_id = do
    redis_set_ex (Key.login_locked user_id) (number 1) lockout_ttl
    throw (reference_error "LockedError")

  -- After a wrong password.
  failed_login : ℕ → Action World Session
  unfolding lock_out
  failed_login user_id = do
    attempts ← incr_with_expire (Key.login_attempts user_id) lockout_ttl
    if leb lockout_threshold attempts then lock_out user_id else throw invalid_credentials

  -- After the right one.
  successful_login : ℕ → User → Action World Session
  unfolding sign_access_token issue_refresh_token
  successful_login token_id user = do
    redis_del (Key.login_attempts user.id)
    open_session token_id user

  pub login : ℕ → String → Text → Action World Session
  unfolding failed_login successful_login
  login token_id email password = do
    found ← gets (find_one_user (λ u. str_eq u.email (stored_email email)))
    user ← or_throw found invalid_credentials
    locked ← redis_get (Key.login_locked user.id)
    throw_if (is_some locked) (reference_error "LockedError")
    if b.crypto.compare password user.password_hash
        then successful_login token_id user
        else failed_login user.id

  pub refresh : ℕ → b.crypto.Token → Action World Session
  unfolding validate_refresh_token revoke_refresh_token sign_access_token issue_refresh_token
  refresh token_id token = do
    checked ← validate_refresh_token token
    result ← or_throw checked (unauthorized "Invalid or expired refresh token" "UNAUTHORIZED")
    revoke_refresh_token result.0 result.1
    found ← gets (find_user result.0)
    user ← or_throw found (unauthorized "User not found." "UNAUTHORIZED")
    open_session token_id user

  revoke_checked : Option (ℕ × ℕ) → Action World Unit
  unfolding revoke_refresh_token
  revoke_checked none = pure tt
  revoke_checked (some (user_id, token_id)) = revoke_refresh_token user_id token_id

  pub logout : b.crypto.Token → Action World Unit
  unfolding validate_refresh_token revoke_checked
  logout token = do checked ← validate_refresh_token token; revoke_checked checked

  send_reset : ℕ → String → Option User → Action World Unit
  send_reset token email none = pure tt
  send_reset token email (some user) = do
    redis_set_ex (Key.pwd_reset token) (user_ref user.id) reset_token_ttl
    enqueue (record { name = "send-verification"; to = email; token = token })

  -- `lowered` is `email.toLowerCase()`.
  unfoldable pub forgot_password : ℕ → String → String → Action World Unit
  unfolding send_reset
  forgot_password token email lowered = do
    count ← incr_with_expire (Key.forgot_limit lowered) 3600
    if ltb 3 count then pure tt else do
      found ← gets (find_one_user (λ u. str_eq u.email (stored_email lowered)))
      send_reset token email found
