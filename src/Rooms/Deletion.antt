-- ===== src/Rooms/Deletion.antt =====
-- `deleteRoom`: what it takes away, in the collection and in Redis.
use node_chat_api.Prelude.{
  ℕ, ◌≡◌, none, some, List, [], ◌∷◌, Bool, true, ◌||◌, any, arith, ◌==◌, refl, if◌then◌else◌,
}
use node_chat_api.Action.{ok}
use node_chat_api.Models.{Room, Member}
use node_chat_api.Backend.{Key, key_eq}
use node_chat_api.World.{Backend, World, find_room}
use node_chat_api.Receipts.{del_receipts}
use node_chat_api.Members.{owns}
use node_chat_api.Rooms.{delete_room, del_unread_all}

-- The keys that belong to a room and its members.
abbrev pub belongs_to : ℕ → List Member → Key → Bool
belongs_to i ms k =
    key_eq (Key.room i) k
    || any (λ m. key_eq (Key.unread m.user_id i) k) ms
    || any (λ m. key_eq (Key.last_read m.user_id i) k) ms

module _ ⦃b : Backend⦄ where
  entry-del_unread_all :
      (i : ℕ) (ms : List Member) (k : Key) (s : b.redis.State)
      → b.redis.entry (del_unread_all i ms s) k
        ≡ (if any (λ m. key_eq (Key.unread m.user_id i) k) ms then none else b.redis.entry s k)
  unfolding del_unread_all
  entry-del_unread_all i [] k s = refl
  entry-del_unread_all i (m ∷ ms) k s =
      let key : Key = Key.unread m.user_id i in
      ground (arith, entry-del_unread_all i ms k (b.redis.del key s), b.redis.entry-del key k s)

  entry-del_receipts :
      (i : ℕ) (ms : List Member) (k : Key) (s : b.redis.State)
      → b.redis.entry (del_receipts i ms s) k
        ≡ (if any (λ m. key_eq (Key.last_read m.user_id i) k) ms then none else b.redis.entry s k)
  entry-del_receipts i [] k s = refl
  entry-del_receipts i (m ∷ ms) k s =
      let key : Key = Key.last_read m.user_id i in
      ground (arith, entry-del_receipts i ms k (b.redis.del key s), b.redis.entry-del key k s)

  -- An owner's request to delete a room succeeds. It takes that room out of the collection and no other,
  -- and takes out of Redis exactly the room's cached response and the unread counter and read receipt of
  -- each of its members.
  pub delete_room_lem :
      (i u : ℕ) (w : World) (r : Room)
      → find_room i w ≡ some r
      → owns u r.members ≡ true
      → ((delete_room i u w).0 ≡ ok tt)
        × ((j : ℕ) → find_room j (delete_room i u w).1 ≡ (if i == j then none else find_room j w))
        × ((k : Key)
            → b.redis.entry (delete_room i u w).1.redis k
              ≡ (if belongs_to i r.members k then none else b.redis.entry w.redis k))
  unfolding delete_room
  delete_room_lem i u w r e o =
      let s : b.redis.State = b.redis.del (Key.room i) w.redis in
      let s' : b.redis.State = del_unread_all i r.members s in
      (
        ground arith,
        (λ j. ground (arith, b.rooms.find_by_id-delete_one i j w.rooms)),
        (λ k. ground (
          arith,
          entry-del_receipts i r.members k s',
          entry-del_unread_all i r.members k s,
          b.redis.entry-del (Key.room i) k w.redis,
        )),
      )
