-- ===== src/Backend/MemorySets.antt =====
-- Sorted sets in memory, by their definition.
use node_chat_api.Prelude.{
  ◌+◌, ◌*◌, ◌≡◌, ◌↔◌, some, List, Bool, true, false, arith, get_or, ltb, ◌==◌, ◌&&◌, ◌||◌,
  if◌then◌else◌,
}
use node_chat_api.Backend.Memory.{lookup, put, lookup-put}
use node_chat_api.Backend.Sets.{
  ZKey, online_users, presence, msg_limit, zkey_eq, ZMember, user, stamp, ZSet, SortedSets,
  empty_zset, live_zset, kept, without, newer, placed,
}

pub zkey_eq_iff : (k j : ZKey) → (zkey_eq k j ≡ true) ↔ (k ≡ j)
zkey_eq_iff online_users online_users = ground arith
zkey_eq_iff (presence r) (presence q) = ground arith
zkey_eq_iff (msg_limit u) (msg_limit v) = ground arith
zkey_eq_iff _ _ = ground arith

abbrev Zsets : Type 0
Zsets = List (ZKey × ZSet)

abbrev zset_of : Zsets → ZKey → ZSet
zset_of s k = get_or (lookup zkey_eq k s) empty_zset

abbrev write_zset : ZKey → ZSet → Zsets → Zsets
write_zset k z s = put zkey_eq k (some z) s

pub zset_of-write :
    (k j : ZKey) (z : ZSet) (s : Zsets)
    → zset_of (write_zset k z s) j ≡ (if zkey_eq k j then z else zset_of s j)
zset_of-write k j z s = ground (arith, lookup-put zkey_eq zkey_eq_iff k j (some z) s)

abbrev pub member_before : ZMember → ZMember → Bool
member_before (user u) (user v) = ltb u v
member_before (stamp t r) (stamp u s) = ltb t u || (t == u && ltb r s)
member_before _ _ = false

abbrev pub memory_sets : SortedSets
memory_sets = record {
  State = Zsets;
  zset = zset_of;
  spelled_before = member_before;
  zadd = λ now k score m s.
      let z = live_zset now (zset_of s k) in
      write_zset k
        (record {
          items = placed member_before (m, score) (without m z.items);
          expires = z.expires;
        })
        s;
  zrem = λ now k m s.
      let z = live_zset now (zset_of s k) in write_zset k (kept (without m z.items) z.expires) s;
  zremrangebyscore = λ now k window s.
      let z = live_zset now (zset_of s k) in
      write_zset k (kept (newer now window z.items) z.expires) s;
  expire = λ now k ttl s.
      write_zset k (kept (live_zset now (zset_of s k)).items (some (now + ttl * 1000))) s;
  zset-zadd = λ now score k j m s. zset_of-write k j _ s;
  zset-zrem = λ now k j m s. zset_of-write k j _ s;
  zset-zremrangebyscore = λ now window k j s. zset_of-write k j _ s;
  zset-expire = λ now ttl k j s. zset_of-write k j _ s;
}
