-- ===== src/Backend/Keys.antt =====
-- The keys and values that the code writes to Redis, one constructor for each key template.
use Prim.Native.String.{String}
use text.Mathlib.Text.{◌==◌ as str_eq}
use text.Mathlib.TextEquality.{eq_iff}
use node_chat_api.Prelude.{ℕ, Option, Bool, true, false, ◌&&◌, ◌==◌, ◌≡◌, ◌↔◌, arith}
use node_chat_api.Models.{RoomResponse}

pub data Key : Type 0 where
  email_verify : ℕ → Key  -- email-verify:{token}
  pwd_reset : ℕ → Key  -- pwd-reset:{token}
  resend_limit : ℕ → Key  -- rl:resend:{userId}
  forgot_limit : String → Key  -- rl:forgot:{email}
  http_limit : String → String → Key  -- rl:{keyPrefix}:{identifier}
  login_locked : ℕ → Key  -- login-locked:{userId}
  login_attempts : ℕ → Key  -- login-attempts:{userId}
  refresh : ℕ → ℕ → Key  -- refresh:{userId}:{tokenId}
  room : ℕ → Key  -- room:{roomId}
  invite : ℕ → Key  -- invite:{token}
  last_read : ℕ → ℕ → Key  -- lastread:{userId}:{roomId}
  unread : ℕ → ℕ → Key  -- unread:{userId}:{roomId}
  typing : ℕ → ℕ → Key  -- typing:{roomId}:{userId}

abbrev pub key_eq : Key → Key → Bool
key_eq (email_verify t) (email_verify u) = t == u
key_eq (pwd_reset t) (pwd_reset u) = t == u
key_eq (resend_limit t) (resend_limit u) = t == u
key_eq (forgot_limit t) (forgot_limit u) = str_eq t u
key_eq (http_limit p t) (http_limit q u) = str_eq p q && str_eq t u
key_eq (login_locked t) (login_locked u) = t == u
key_eq (login_attempts t) (login_attempts u) = t == u
key_eq (refresh t i) (refresh u j) = t == u && i == j
key_eq (room t) (room u) = t == u
key_eq (invite t) (invite u) = t == u
key_eq (last_read t i) (last_read u j) = t == u && i == j
key_eq (unread t i) (unread u j) = t == u && i == j
key_eq (typing t i) (typing u j) = t == u && i == j
key_eq _ _ = false

-- The strings stored: a decimal, a user's id, the JSON of a room or of an invite, an ISO time, a
-- name, and the word `valid`.
pub data Value : Type 0 where
  number : ℕ → Value
  user_ref : ℕ → Value
  room_json : RoomResponse → Value
  invite_json : ℕ → ℕ → Value
  iso_time : ℕ → Value
  name : String → Value
  valid : Value

-- A value and the time at which it expires, if it does.
pub record Entry : Type 0 where
  pub value : Value
  pub expires : Option ℕ

pub key_eq_iff : (k j : Key) → (key_eq k j ≡ true) ↔ (k ≡ j)
key_eq_iff (email_verify t) (email_verify u) = ground arith
key_eq_iff (pwd_reset t) (pwd_reset u) = ground arith
key_eq_iff (resend_limit t) (resend_limit u) = ground arith
key_eq_iff (forgot_limit t) (forgot_limit u) = ground (arith, eq_iff t u)
key_eq_iff (http_limit p t) (http_limit q u) = ground (arith, eq_iff p q, eq_iff t u)
key_eq_iff (login_locked t) (login_locked u) = ground arith
key_eq_iff (login_attempts t) (login_attempts u) = ground arith
key_eq_iff (refresh t i) (refresh u j) = ground arith
key_eq_iff (room t) (room u) = ground arith
key_eq_iff (invite t) (invite u) = ground arith
key_eq_iff (last_read t i) (last_read u j) = ground arith
key_eq_iff (unread t i) (unread u j) = ground arith
key_eq_iff (typing t i) (typing u j) = ground arith
key_eq_iff _ _ = ground arith
