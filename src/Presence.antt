-- ===== src/Presence.antt =====
-- services/presenceService.js
pub mod Eviction
use node_chat_api.Prelude.{
  ℕ, ◌+◌, ◌-◌, ◌*◌, Option, none, some, List, [], ◌∷◌, Bool, false, filter, length, leb,
}
use node_chat_api.Action.{Action, ok, gets}
use node_chat_api.Backend.{
  ZKey, online_users, presence, ZMember, user, stamp, ZSet, live_zset, newer, score_in,
}
use node_chat_api.World.{Backend, World}

-- 5 * 60 * 1000 ms
abbrev pub stale_threshold : ℕ
stale_threshold = 300000

-- The users in an answer of ZRANGE.
abbrev pub user_ids : List (ZMember × ℕ) → List ℕ
user_ids [] = []
user_ids ((user u, score) ∷ xs) = u ∷ user_ids xs
user_ids ((stamp t r, score) ∷ xs) = user_ids xs

-- `score != null && Number(score) >= cutoff`
abbrev pub is_fresh : ℕ → Option ℕ → Bool
is_fresh now none = false
is_fresh now (some score) = leb now (score + stale_threshold)

module _ ⦃b : Backend⦄ where
  abbrev pub on_sets : (b.sets.State → b.sets.State) → Action World Unit
  on_sets f w = (ok tt, record w { sets = f w.sets })

  abbrev pub found_set : ZKey → World → ZSet
  found_set k w = live_zset w.now (b.sets.zset w.sets k)

  unfoldable pub mark_online : ℕ → Action World Unit
  mark_online user_id w = on_sets (b.sets.zadd w.now online_users w.now (user user_id)) w

  abbrev pub leave_presences : ℕ → ℕ → List ℕ → b.sets.State → b.sets.State
  leave_presences now user_id [] s = s
  leave_presences now user_id (r ∷ rs) s =
      leave_presences now user_id rs (b.sets.zrem now (presence r) (user user_id) s)

  unfoldable pub mark_offline : ℕ → List ℕ → Action World Unit
  mark_offline user_id room_ids w =
      on_sets
        (λ s.
          leave_presences w.now user_id room_ids (b.sets.zrem w.now online_users (user user_id) s))
        w

  unfoldable pub join_presence : ℕ → ℕ → Action World Unit
  join_presence user_id room_id w =
      on_sets (b.sets.zadd w.now (presence room_id) w.now (user user_id)) w

  abbrev pub is_online : ℕ → World → Bool
  is_online user_id w = is_fresh w.now (score_in (user user_id) (found_set online_users w).items)

  unfoldable pub get_room_presence : ℕ → Action World (List ℕ)
  get_room_presence room_id =
      gets λ w. filter (λ u. is_online u w) (user_ids (found_set (presence room_id) w).items)

  -- The number of users removed.
  unfoldable pub evict_stale_users : Action World ℕ
  evict_stale_users w =
      let items : List (ZMember × ℕ) = (found_set online_users w).items in
      (
        ok (length items - length (newer w.now stale_threshold items)),
        record w { sets = b.sets.zremrangebyscore w.now online_users stale_threshold w.sets },
      )

  -- `tick` of jobs/presenceEvictionJob.js, every 60 seconds: it logs the number, or the error.
  unfoldable pub tick : Action World Unit
  tick w = (ok tt, (evict_stale_users w).1)
