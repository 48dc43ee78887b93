-- ===== src/MessageLimit/Window.antt =====
-- What the limiter answers to a sequence of messages of one user.
use node_chat_api.Prelude.{
  ℕ, ◌+◌, ◌≡◌, Option, some, List, [], ◌∷◌, Bool, true, not, length, leb, ==_refl, arith, refl,
}
use node_chat_api.Action.{ok}
use node_chat_api.Backend.{
  ZKey, msg_limit, zkey_eq, ZMember, stamp, ZSet, is_live, live_zset, kept, without, newer, placed,
}
use node_chat_api.World.{Backend, World}
use node_chat_api.MessageLimit.{check_message_rate_limit}
use node_chat_api.MessageLimit.Tally.{Item}

kept-placed :
    (before : ZMember → ZMember → Bool) (x : Item) (xs : List Item) (d : Option ℕ)
    → kept (placed before x xs) d ≡ record { items = placed before x xs; expires = d }
kept-placed before x [] d = refl
kept-placed before x (y ∷ ys) d = ground arith

length-placed :
    (before : ZMember → ZMember → Bool) (x : Item) (xs : List Item)
    → length (placed before x xs) ≡ length xs + 1
length-placed before x [] = omega arith
length-placed before x (y ∷ ys) = ground (arith, length-placed before x ys)

live_zset-expires : (t : ℕ) (z : ZSet) → is_live t (live_zset t z).expires ≡ true
live_zset-expires t z = ground arith

live_zset-kept :
    (t : ℕ) (xs : List Item) (z : ZSet) → (live_zset t (kept xs (live_zset t z).expires)).items ≡ xs
live_zset-kept t [] z = refl
live_zset-kept t (x ∷ xs) z = ground (arith, live_zset-expires t z)

-- Accepted or refused at a time: within the last minute.
abbrev pub young : ℕ → Item → Bool
young n x = not (leb (x.1 + 60000) n)

abbrev pub item : ℕ × ℕ → Item
item (t, nonce) = (stamp t nonce, t)

module _ ⦃b : Backend⦄ where
  abbrev pub limit_set : ℕ → World → ZSet
  limit_set u w = b.sets.zset w.sets (msg_limit u)

  -- The items that a check at the present time keeps.
  abbrev pub kept_items : ℕ → ℕ → World → List Item
  kept_items nonce u w =
      without (stamp w.now nonce) (newer w.now 60000 (live_zset w.now (limit_set u w)).items)

  -- The set after the first two commands, as the others find it.
  check_added :
      (nonce u : ℕ) (w : World)
      → (live_zset w.now (
          b.sets.zset
            (b.sets.zadd w.now
              (msg_limit u)
              w.now
              (stamp w.now nonce)
              (b.sets.zremrangebyscore w.now (msg_limit u) 60000 w.sets))
            (msg_limit u))).items
        ≡ placed b.sets.spelled_before (stamp w.now nonce, w.now) (kept_items nonce u w)
  check_added nonce u w =
      let t : ℕ = w.now in
      let key : ZKey = msg_limit u in
      let m : ZMember = stamp t nonce in
      let trimmed : b.sets.State = b.sets.zremrangebyscore t key 60000 w.sets in
      let z : ZSet = b.sets.zset trimmed key in
      let same : zkey_eq key key ≡ true = ==_refl u in
      let old : z
          ≡ kept (newer t 60000 (live_zset t (limit_set u w)).items)
              (live_zset t (limit_set u w)).expires =
        ground (arith, same, b.sets.zset-zremrangebyscore t 60000 key key w.sets) in
      let items =
        live_zset-kept t (newer t 60000 (live_zset t (limit_set u w)).items) (limit_set u w) in
      ground
        (arith, same, old, items, live_zset-expires t z, b.sets.zset-zadd t t key key m trimmed)

  pub check_lem :
      (nonce u : ℕ) (w : World)
      → ((check_message_rate_limit nonce u w).0 ≡ ok (leb (length (kept_items nonce u w) + 1) 30))
        × ((check_message_rate_limit nonce u w).1.now ≡ w.now)
        × (limit_set u (check_message_rate_limit nonce u w).1 ≡ record {
          items = placed b.sets.spelled_before (stamp w.now nonce, w.now) (kept_items nonce u w);
          expires = some (w.now + 60000);
        })
  unfolding check_message_rate_limit
  check_lem nonce u w =
      let t : ℕ = w.now in
      let key : ZKey = msg_limit u in
      let x : Item = (stamp t nonce, t) in
      let items = check_added nonce u w in
      let added : b.sets.State =
        b.sets.zadd t key t (stamp t nonce) (b.sets.zremrangebyscore t key 60000 w.sets) in
      (
        ground (arith, items, length-placed b.sets.spelled_before x (kept_items nonce u w)),
        refl,
        ground (
          arith,
          ==_refl u,
          items,
          kept-placed b.sets.spelled_before x (kept_items nonce u w) (some (t + 60000)),
          b.sets.zset-expire t 60 key key added,
        ),
      )
