-- ===== src/Unread.antt =====
-- services/unreadService.js
pub mod Counts
use node_chat_api.Prelude.{
  ℕ, not, Option, none, some, List, [], ◌∷◌, map, filter, ◌==◌, if◌then◌else◌, ltb,
}
use node_chat_api.Action.{Action, ok, gets}
use node_chat_api.Models.{Room, Member}
use node_chat_api.Backend.{Key, Value, number}
use node_chat_api.World.{Backend, World, find_room, redis_del}
use node_chat_api.Members.{has_member}

-- `parseInt(value) || 0`
abbrev pub count_of : Option Value → ℕ
count_of (some (number n)) = n
count_of _ = 0

-- The members besides the sender.
abbrev pub others : ℕ → List Member → List ℕ
others sender_id ms = map (λ m. m.user_id) (filter (λ m. not (m.user_id == sender_id)) ms)

module _ ⦃b : Backend⦄ where
  -- The pipeline of INCRs, one after another.
  abbrev pub incr_all : ℕ → ℕ → List ℕ → b.redis.State → b.redis.State
  incr_all now room_id [] s = s
  incr_all now room_id (m ∷ ms) s =
      incr_all now room_id ms (b.redis.incr now (Key.unread m room_id) s).1

  bump_members : ℕ → ℕ → Option Room → Action World Unit
  bump_members room_id sender_id none w = (ok tt, w)
  bump_members room_id sender_id (some room) w =
      (ok tt, record w { redis = incr_all w.now room_id (others sender_id room.members) w.redis })

  unfoldable pub increment_unread : ℕ → ℕ → Action World Unit
  unfolding bump_members
  increment_unread room_id sender_id w = bump_members room_id sender_id (find_room room_id w) w

  unfoldable pub reset_unread : ℕ → ℕ → Action World Unit
  reset_unread user_id room_id = redis_del (Key.unread user_id room_id)

  abbrev pub clear_unread : ℕ → ℕ → Action World Unit
  clear_unread user_id room_id = redis_del (Key.unread user_id room_id)

  counts_of : ℕ → List Room → World → List (ℕ × ℕ)
  counts_of user_id [] w = []
  counts_of user_id (r ∷ rs) w =
      let rest = counts_of user_id rs w in
      let n = count_of (b.redis.get w.now (Key.unread user_id r.id) w.redis) in
      if ltb 0 n then (r.id, n) ∷ rest else rest

  -- Each counter that is not zero, by the room of the user it is about.
  unfoldable pub get_unread_counts : ℕ → Action World (List (ℕ × ℕ))
  unfolding counts_of
  get_unread_counts user_id =
      gets λ w. counts_of user_id (b.rooms.find (λ r. has_member user_id r.members) w.rooms) w
