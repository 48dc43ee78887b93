-- ===== src/Tests/RoomDataTests.antt =====
-- Deletion, unread counters and direct messages on the state `start`.
use node_chat_api.Prelude.{
  ℕ, ◌+◌, ◌≡◌, String, none, some, ◌∷◌, false, not, ◌&&◌, any, refl, ◌==◌, if◌then◌else◌,
}
use node_chat_api.Action.{ok}
use node_chat_api.Models.{Room, member}
use node_chat_api.Backend.{Key, key_eq}
use node_chat_api.World.{World, find_room}
use node_chat_api.Demo.{demo, start, general}
use node_chat_api.Members.{has_member}
use node_chat_api.Rooms.{delete_room, leave_room}
use node_chat_api.Rooms.Deletion.{belongs_to, delete_room_lem}
use node_chat_api.Unread.{increment_unread, others}
use node_chat_api.Unread.Counts.{unread_count, increment_unread_lem}
use node_chat_api.Dm.Pairs.{IsStored}
use node_chat_api.Dm.{find_or_create_dm, build_dm_key, to_dm_response, DmResponse, dm_room}
use node_chat_api.Dm.Pairs.{find_or_create_dm_again}
use node_chat_api.Dm.Departure.{find_or_create_dm-leave_room}

abbrev after_message : World
after_message = (increment_unread 10 1 start).1

delete_room_lem_example :
    ((delete_room 10 1 after_message).0 ≡ ok tt)
    × ((j : ℕ)
        → find_room j (delete_room 10 1 after_message).1
          ≡ (if 10 == j then none else find_room j after_message))
    × ((k : Key)
        → demo.redis.entry (delete_room 10 1 after_message).1.redis k ≡ (
            if belongs_to 10 general.members k
            then none
            else demo.redis.entry after_message.redis k))
unfolding increment_unread
delete_room_lem_example = delete_room_lem 10 1 after_message general refl refl

increment_unread_lem_example :
    ((v : ℕ)
      → unread_count v 10 (increment_unread 10 1 start).1
        ≡ unread_count v 10 start + (if has_member v general.members && not (v == 1) then 1 else 0))
    × ((k : Key)
        → any (λ v. key_eq (Key.unread v 10) k) (others 1 general.members) ≡ false
        → demo.redis.entry (increment_unread 10 1 start).1.redis k ≡ demo.redis.entry start.redis k)
increment_unread_lem_example =
    increment_unread_lem 10 1 start general refl (refl, (refl, (refl, tt)))

abbrev spelled : ℕ × ℕ → String
spelled k = "1:2"

abbrev opened_dm : DmResponse
opened_dm = to_dm_response (dm_room 30 "1:2" 1 2 1000)

dm_opens : (find_or_create_dm 30 spelled 1 2 start).0 ≡ ok opened_dm
unfolding find_or_create_dm
dm_opens = refl

find_or_create_dm_again_example :
    (r : Room) × IsStored r (build_dm_key 1 2) (find_or_create_dm 30 spelled 1 2 start).1
    × (find_or_create_dm 31 spelled 1 2 (find_or_create_dm 30 spelled 1 2 start).1
        ≡ (ok (to_dm_response r), (find_or_create_dm 30 spelled 1 2 start).1))
    × (find_or_create_dm 31 spelled 2 1 (find_or_create_dm 30 spelled 1 2 start).1
        ≡ (ok (to_dm_response r), (find_or_create_dm 30 spelled 1 2 start).1))
find_or_create_dm_again_example =
    find_or_create_dm_again 30 31 1 2 spelled start opened_dm refl dm_opens

abbrev pair : Room
pair = dm_room 30 "1:2" 1 2 1000

abbrev with_dm : World
with_dm = record start { rooms = (30, pair) ∷ start.rooms }

find_or_create_dm-leave_room_example :
    (q : Room) × IsStored q (build_dm_key 1 2) (leave_room 30 1 with_dm).1
    × (find_or_create_dm 31 spelled 1 2 (leave_room 30 1 with_dm).1
        ≡ (ok (to_dm_response q), (leave_room 30 1 with_dm).1))
    × (s : Room) × (find_room 30 (find_or_create_dm 31 spelled 1 2 (leave_room 30 1 with_dm).1).1
        ≡ some s)
    × (has_member 1 s.members ≡ false)
find_or_create_dm-leave_room_example =
    find_or_create_dm-leave_room 30 31 1 2 spelled with_dm pair
      (record { user_id = 1; role = member; joined_at = 1000 }) refl refl refl refl refl refl
