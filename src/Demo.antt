-- ===== src/Demo.antt =====
-- A backend in memory and a state on it, for the witnesses: three users, a public and a private room,
-- and a message.
use Prim.Native.String.{String}
use text.Mathlib.Text.{◌==◌ as str_eq}
use text.Mathlib.TextPositions.{eq_refl}
use node_chat_api.Prelude.{
  ℕ, ◌+◌, ◌/◌, Option, none, some, List, [], ◌∷◌, true, false, ltb, if◌then◌else◌, refl,
}
use node_chat_api.Models.{User, Room, Member, Message, owner, admin, member, group, MessageType}
use node_chat_api.Backend.MemorySets.{memory_sets}
use node_chat_api.Backend.Memory.{memory_redis, memory_collection}
use node_chat_api.World.{same_user, same_room, Backend, World, Crypto, Payload}

-- A stand-in for bcrypt that keeps the length of the password.
abbrev pub spell : List ℕ → String
spell [] = String.[]
spell (c ∷ s) = String.◌∷◌ "x" (spell s)

pub record Signed : Type 0 where
  pub sub : ℕ
  pub jti : ℕ
  pub expires : ℕ

abbrev pub check_signed : ℕ → Signed → Option Payload
check_signed now t =
    if ltb (now / 1000) t.expires
    then some (record { sub = t.sub; jti = t.jti; is_refresh = true })
    else none

abbrev pub stand_in : Crypto
stand_in = record {
  Token = Signed;
  hash = λ salt password. spell password;
  compare = λ password hash. str_eq (spell password) hash;
  sign_access = λ c ttl now. record { sub = c.sub; jti = 0; expires = now / 1000 + ttl };
  sign_refresh = λ sub jti ttl now. record { sub = sub; jti = jti; expires = now / 1000 + ttl };
  verify_refresh = check_signed;
  compare-hash = λ salt password. eq_refl (spell password);
  verify-sign_refresh = λ sub jti ttl now later. refl;
}

-- A stand-in for `toLowerCase`, on one letter.
abbrev pub lower : String → String
lower s = if str_eq s "Dan@x" then "dan@x" else s

instance abbrev pub demo : Backend
demo = record {
  lowercase = lower;
  trim = λ s. s;
  crypto = stand_in;
  redis = memory_redis;
  sets = memory_sets;
  users = memory_collection (λ u. u.created_at) same_user;
  rooms = memory_collection (λ r. r.created_at) same_room;
  messages = memory_collection (λ m. m.created_at) (λ m k. false);
  odd_path = λ i add path u s. (none, s);
}

abbrev pub user : ℕ → String → String → User
user i username email = record {
  id = i;
  username = username;
  email = email;
  password_hash = "xxxxxxxx";
  display_name = none;
  avatar_url = none;
  verified = false;
  created_at = i;
}

abbrev pub entry_of : ℕ → Member
entry_of u = record { user_id = u; role = member; joined_at = 0 }

-- User 1 owns it, 2 is an admin, 3 a member.
abbrev pub general : Room
general = record {
  id = 10;
  name = "general";
  description = none;
  created_by = 1;
  members =
      (record { user_id = 1; role = owner; joined_at = 0 })
      ∷ (record { user_id = 2; role = admin; joined_at = 0 })
      ∷ entry_of 3
      ∷ [];
  is_private = false;
  type = group;
  dm_key = none;
  created_at = 5;
}

abbrev pub secret : Room
secret = record general {
  id = 11;
  name = "secret";
  members = (record { user_id = 1; role = owner; joined_at = 0 }) ∷ [];
  is_private = true;
  created_at = 6;
}

abbrev pub hello : Message
hello = record {
  id = 20;
  room_id = 10;
  sender_id = 1;
  sender_username = "ann";
  content = 104 ∷ 105 ∷ [];
  type = MessageType.text;
  edited_at = none;
  deleted_at = none;
  reactions = [];
  created_at = 900;
}

abbrev pub start : World
start = record {
  now = 1000;
  redis = [];
  sets = [];
  users = (1, user 1 "ann" "ann@x") ∷ (2, user 2 "bob" "bob@x") ∷ (3, user 3 "cyd" "cyd@x") ∷ [];
  rooms = (10, general) ∷ (11, secret) ∷ [];
  messages = (20, hello) ∷ [];
  jobs = [];
}
