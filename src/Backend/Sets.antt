-- ===== src/Backend/Sets.antt =====
-- The Redis commands on sorted sets, on the three key templates that the code uses. Members are kept in
-- the order of their scores, and of their spelling where scores agree.
use node_chat_api.Prelude.{
  ℕ, ◌+◌, ◌*◌, ◌≡◌, Option, none, some, List, [], ◌∷◌, Bool, true, false, not, ◌&&◌, ◌||◌, filter,
  leb, ltb, ◌==◌, if◌then◌else◌,
}

pub data ZKey : Type 0 where
  online_users : ZKey
  presence : ℕ → ZKey
  msg_limit : ℕ → ZKey

abbrev pub zkey_eq : ZKey → ZKey → Bool
zkey_eq online_users online_users = true
zkey_eq (presence r) (presence q) = r == q
zkey_eq (msg_limit u) (msg_limit v) = u == v
zkey_eq _ _ = false

-- A user's id, or a time with a random number.
pub data ZMember : Type 0 where
  user : ℕ → ZMember
  stamp : ℕ → ℕ → ZMember

abbrev pub member_eq : ZMember → ZMember → Bool
member_eq (user u) (user v) = u == v
member_eq (stamp t r) (stamp u s) = t == u && r == s
member_eq _ _ = false

-- Members with their scores, and the time at which the key expires, if it does.
pub record ZSet : Type 0 where
  pub items : List (ZMember × ℕ)
  pub expires : Option ℕ

abbrev pub is_live : ℕ → Option ℕ → Bool
is_live now none = true
is_live now (some t) = ltb now t

abbrev pub empty_zset : ZSet
empty_zset = record { items = []; expires = none }

-- The set as a command finds it.
abbrev pub live_zset : ℕ → ZSet → ZSet
live_zset now z = if is_live now z.expires then z else empty_zset

-- A set that lost its last member is gone, with its expiry.
abbrev pub kept : List (ZMember × ℕ) → Option ℕ → ZSet
kept [] t = empty_zset
kept (x ∷ xs) t = record { items = x ∷ xs; expires = t }

abbrev pub without : ZMember → List (ZMember × ℕ) → List (ZMember × ℕ)
without m xs = filter (λ x. not (member_eq x.0 m)) xs

-- The items whose score is above `now - window`.
abbrev pub newer : ℕ → ℕ → List (ZMember × ℕ) → List (ZMember × ℕ)
newer now window xs = filter (λ x. not (leb (x.1 + window) now)) xs

module _ (spelled_before : ZMember → ZMember → Bool) where
  abbrev pub placed : ZMember × ℕ → List (ZMember × ℕ) → List (ZMember × ℕ)
  placed x [] = x ∷ []
  placed x (y ∷ ys) =
      if ltb x.1 y.1 || (x.1 == y.1 && spelled_before x.0 y.0) then x ∷ y ∷ ys else y ∷ placed x ys

abbrev pub score_in : ZMember → List (ZMember × ℕ) → Option ℕ
score_in m [] = none
score_in m (x ∷ xs) = if member_eq x.0 m then some x.1 else score_in m xs

-- What ZRANGE 0 -1, ZSCORE and ZCARD answer is read off `zset`. `zremrangebyscore` removes the scores
-- from -inf to `now - window`.
pub record SortedSets : Type 1 where
  pub State : Type 0
  pub zset : State → ZKey → ZSet
  pub spelled_before : ZMember → ZMember → Bool
  pub zadd : ℕ → ZKey → ℕ → ZMember → State → State
  pub zrem : ℕ → ZKey → ZMember → State → State
  pub zremrangebyscore : ℕ → ZKey → ℕ → State → State
  pub expire : ℕ → ZKey → ℕ → State → State
  pub zset-zadd :
      (now score : ℕ) (k j : ZKey) (m : ZMember) (s : State)
      → zset (zadd now k score m s) j ≡ (
          if zkey_eq k j
          then record {
            items = placed spelled_before (m, score) (without m (live_zset now (zset s k)).items);
            expires = (live_zset now (zset s k)).expires;
          }
          else zset s j)
  pub zset-zrem :
      (now : ℕ) (k j : ZKey) (m : ZMember) (s : State)
      → zset (zrem now k m s) j ≡ (
          if zkey_eq k j
          then kept (without m (live_zset now (zset s k)).items) (live_zset now (zset s k)).expires
          else zset s j)
  pub zset-zremrangebyscore :
      (now window : ℕ) (k j : ZKey) (s : State)
      → zset (zremrangebyscore now k window s) j ≡ (
          if zkey_eq k j
          then kept
              (newer now window (live_zset now (zset s k)).items)
              (live_zset now (zset s k)).expires
          else zset s j)
  pub zset-expire :
      (now ttl : ℕ) (k j : ZKey) (s : State)
      → zset (expire now k ttl s) j ≡ (
          if zkey_eq k j
          then kept (live_zset now (zset s k)).items (some (now + ttl * 1000))
          else zset s j)
