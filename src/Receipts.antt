-- ===== src/Receipts.antt =====
-- services/readReceiptService.js
use node_chat_api.Prelude.{ℕ, Option, none, some, List, [], ◌∷◌}
use node_chat_api.Action.{Action, ok, gets}
use node_chat_api.Models.{Room, Member}
use node_chat_api.Backend.{Key, Value, iso_time}
use node_chat_api.World.{Backend, World, find_room, redis_del}

module _ ⦃b : Backend⦄ where
  unfoldable pub mark_read : ℕ → ℕ → Action World Unit
  mark_read user_id room_id w = (
    ok tt,
    record w { redis = b.redis.set (Key.last_read user_id room_id) (iso_time w.now) w.redis },
  )

  -- The receipts of those members who have one, in the order of the members.
  receipts_of : ℕ → List Member → World → List (ℕ × Value)
  receipts_of room_id [] w = []
  receipts_of room_id (m ∷ ms) w =
      let rest = receipts_of room_id ms w in
      elim (b.redis.get w.now (Key.last_read m.user_id room_id) w.redis) [
        | none ↦ rest
        | some v ↦ (m.user_id, v) ∷ rest
      ]

  or_empty : ℕ → Option Room → World → List (ℕ × Value)
  or_empty room_id none w = []
  or_empty room_id (some room) w = receipts_of room_id room.members w

  unfoldable pub get_room_receipts : ℕ → Action World (List (ℕ × Value))
  unfolding or_empty receipts_of
  get_room_receipts room_id = gets (λ w. or_empty room_id (find_room room_id w) w)

  abbrev pub clear_receipt : ℕ → ℕ → Action World Unit
  clear_receipt user_id room_id = redis_del (Key.last_read user_id room_id)

  abbrev pub del_receipts : ℕ → List Member → b.redis.State → b.redis.State
  del_receipts room_id [] s = s
  del_receipts room_id (m ∷ ms) s =
      del_receipts room_id ms (b.redis.del (Key.last_read m.user_id room_id) s)

  abbrev pub clear_all_receipts : ℕ → List Member → Action World Unit
  clear_all_receipts room_id ms w = (ok tt, record w { redis = del_receipts room_id ms w.redis })
