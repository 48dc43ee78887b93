-- ===== src/World.antt =====
-- The state that the services share: the clock, the collections, the keys of Redis, the e-mail jobs.
use node_chat_api.Prelude.{
  ℕ, ◌+◌, ◌/◌, ◌≡◌, String, List, [], ◌∷◌, ◌++◌, Option, none, some, Bool, true, false, ◌||◌, ◌&&◌,
  ◌==◌, ltb, if◌then◌else◌,
}
use text.Mathlib.Text.{◌==◌ as str_eq}
use node_chat_api.Errors.{schema_error}
use node_chat_api.Action.{Action, ok, err}
use node_chat_api.Models.{User, Room, Message}
use node_chat_api.Backend.{Redis, SortedSets, Collection, Key, Value}

-- The claims of the two kinds of tokens.
pub record AccessClaims : Type 0 where
  pub sub : ℕ
  pub username : String
  pub verified : Bool

pub record Payload : Type 0 where
  pub sub : ℕ
  pub jti : ℕ
  pub is_refresh : Bool

-- bcrypt and jsonwebtoken. Lifetimes are in seconds, the clock in milliseconds; jsonwebtoken reckons in
-- whole seconds: `iat` is the second of the signature, `exp` is `iat` and the lifetime, and a token is
-- refused from the second `exp` on.
pub record Crypto : Type 1 where
  pub Token : Type 0
  pub hash : ℕ → List ℕ → String
  pub compare : List ℕ → String → Bool
  pub sign_access : AccessClaims → ℕ → ℕ → Token
  pub sign_refresh : ℕ → ℕ → ℕ → ℕ → Token
  pub verify_refresh : ℕ → Token → Option Payload
  pub compare-hash : (salt : ℕ) (password : List ℕ) → compare password (hash salt password) ≡ true
  pub verify-sign_refresh :
      (sub jti ttl now later : ℕ)
      → verify_refresh later (sign_refresh sub jti ttl now) ≡ (
          if ltb (later / 1000) (now / 1000 + ttl)
          then some (record { sub = sub; jti = jti; is_refresh = true })
          else none)

-- The unique fields: `username` and `email` of users, `name` and `dmKey` of rooms, the latter where
-- there is one.
abbrev pub same_user : User → User → Bool
same_user u v = str_eq u.username v.username || str_eq u.email v.email

abbrev pub same_key : Option (ℕ × ℕ) → Option (ℕ × ℕ) → Bool
same_key (some j) (some k) = j.0 == k.0 && j.1 == k.1
same_key _ _ = false

abbrev pub same_room : Room → Room → Bool
same_room r q = str_eq r.name q.name || same_key r.dm_key q.dm_key

pub record Backend : Type 1 where
  -- The setters `lowercase` and `trim` of a schema, which Mongoose applies to the values of documents
  -- and of filters alike.
  pub lowercase : String → String
  pub trim : String → String
  pub crypto : Crypto
  pub redis : Redis
  pub sets : SortedSets
  pub users : Collection User (λ u. u.created_at) same_user
  pub rooms : Collection Room (λ r. r.created_at) same_room
  pub messages : Collection Message (λ m. m.created_at) (λ m n. false)
  -- `findOneAndUpdate` of a message by its id, at a path that goes on after `reactions.` with a text that
  -- is no plain key: what MongoDB and Mongoose make of it is theirs, an error (none) or an answer.
  -- True stands for `$addToSet` under the filter of the first attempt, false for `$pull` under that of the
  -- second.
  pub odd_path : ℕ → Bool → List ℕ → ℕ → messages.State → Option (Option Message) × messages.State

-- A job of the queue `email`: its name and the data that it carries.
pub record Job : Type 0 where
  pub name : String
  pub to : String
  pub token : ℕ

-- How the schema of users spells a `username` and an `email`.
abbrev pub stored_name : ⦃b : Backend⦄ → String → String
stored_name ⦃b⦄ username = b.trim username

abbrev pub stored_email : ⦃b : Backend⦄ → String → String
stored_email ⦃b⦄ email = b.trim (b.lowercase email)

module _ ⦃b : Backend⦄ where
  pub record World : Type 0 where
    pub now : ℕ
    pub redis : b.redis.State
    pub sets : b.sets.State
    pub users : b.users.State
    pub rooms : b.rooms.State
    pub messages : b.messages.State
    pub jobs : List Job

  -- A Redis command that only changes the keys.
  abbrev pub on_redis : (b.redis.State → b.redis.State) → Action World Unit
  on_redis f w = (ok tt, record w { redis = f w.redis })

  abbrev pub on_rooms : (b.rooms.State → b.rooms.State) → Action World Unit
  on_rooms f w = (ok tt, record w { rooms = f w.rooms })

  abbrev pub redis_get : Key → Action World (Option Value)
  redis_get k w = (ok (b.redis.get w.now k w.redis), w)

  abbrev pub redis_getdel : Key → Action World (Option Value)
  redis_getdel k w = let (v, s) = b.redis.getdel w.now k w.redis in (ok v, record w { redis = s })

  abbrev pub redis_set_ex : Key → Value → ℕ → Action World Unit
  redis_set_ex k v ttl w = (ok tt, record w { redis = b.redis.set_ex w.now k v ttl w.redis })

  abbrev pub redis_del : Key → Action World Unit
  redis_del k w = (ok tt, record w { redis = b.redis.del k w.redis })

  -- `Room.findById`, and its check for null.
  abbrev pub find_room : ℕ → World → Option Room
  find_room i w = b.rooms.find_by_id w.rooms i

  abbrev pub update_room : ℕ → (Room → Bool) → (Room → Room) → Action World (Option Room)
  update_room i p f w =
      let (r, s) = b.rooms.find_one_and_update i p f w.rooms in (ok r, record w { rooms = s })

  abbrev pub find_user : ℕ → World → Option User
  find_user i w = b.users.find_by_id w.users i

  abbrev pub update_user : ℕ → (User → Bool) → (User → User) → Action World (Option User)
  update_user i p f w =
      let (r, s) = b.users.find_one_and_update i p f w.users in (ok r, record w { users = s })

  abbrev pub find_message : ℕ → World → Option Message
  find_message i w = b.messages.find_by_id w.messages i

  abbrev pub update_message :
      ℕ → (Message → Bool) → (Message → Message) → Action World (Option Message)
  update_message i p f w =
      let (r, s) = b.messages.find_one_and_update i p f w.messages in
      (ok r, record w { messages = s })

  abbrev pub update_odd_path : ℕ → Bool → List ℕ → ℕ → Action World (Option Message)
  update_odd_path i add path u w =
      let (answer, s) = b.odd_path i add path u w.messages in
      (elim answer [ none ↦ err schema_error | some m ↦ ok m ], record w { messages = s })

  -- `User.findOne(filter)`
  abbrev pub find_one_user : (User → Bool) → World → Option User
  find_one_user p w = b.users.find_one p w.users

  -- `emailQueue.add`
  abbrev pub enqueue : Job → Action World Unit
  enqueue j w = (ok tt, record w { jobs = w.jobs ++ j ∷ [] })
