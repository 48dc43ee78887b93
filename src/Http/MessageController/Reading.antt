-- ===== src/Http/MessageController/Reading.antt =====
-- Reading a room's history over HTTP marks the room as read.
use node_chat_api.Prelude.{ℕ, ◌≡◌, none, some, [], ◌∷◌, ◌++◌, ==_refl, arith, if◌then◌else◌}
use node_chat_api.Action.{ok}
use node_chat_api.Backend.{Key, key_eq, iso_time}
use node_chat_api.World.{Backend}
use node_chat_api.Messages
use node_chat_api.Messages.{Before}
use node_chat_api.Paginate.{Parsed}
use node_chat_api.Unread.{reset_unread}
use node_chat_api.Unread.Counts.{unread_count}
use node_chat_api.Receipts.{mark_read}
use node_chat_api.Server.{Server, to_room, read_update}
use node_chat_api.Http.{reply_success}
use node_chat_api.Http.MessageController.{get_message_history}

module _ ⦃b : Backend⦄ where
  -- A request for the history of a room that succeeds leaves the caller with no unread messages in that
  -- room, whoever they are; stores the present time as their receipt; tells the room so, and nobody
  -- else anything; keeps the entry of every other key; and returns the page that the service gives.
  pub get_message_history_lem :
      (u room : ℕ) (before : Before) (limit : Parsed) (s : Server) (page : Messages.History)
      → Messages.get_message_history room before limit s.world ≡ (ok page, s.world)
      → let out = get_message_history u room before limit s in
        (out.0 ≡ ok (reply_success page))
        × (unread_count u room out.1.world ≡ 0)
        × (out.1.emitted ≡ s.emitted ++ (to_room room, read_update u room s.world.now) ∷ [])
        × ((k : Key)
            → b.redis.entry out.1.world.redis k ≡ (
                if key_eq (Key.last_read u room) k
                then some (record { value = iso_time s.world.now; expires = none })
                else if key_eq (Key.unread u room) k
                then none
                else b.redis.entry s.world.redis k))
  unfolding get_message_history reset_unread mark_read
  get_message_history_lem u room before limit s page h =
      let unread : Key = Key.unread u room in
      let cleared : b.redis.State = b.redis.del unread s.world.redis in
      let receipt : Key = Key.last_read u room in
      let done : b.redis.State = b.redis.set receipt (iso_time s.world.now) cleared in
      (
        ground (arith, h),
        ground (
          arith,
          h,
          ==_refl u,
          ==_refl room,
          b.redis.get-entry s.world.now unread done,
          b.redis.entry-set receipt unread (iso_time s.world.now) cleared,
          b.redis.entry-del unread unread s.world.redis,
        ),
        ground (arith, h),
        (λ k. ground (
          arith,
          h,
          b.redis.entry-set receipt k (iso_time s.world.now) cleared,
          b.redis.entry-del unread k s.world.redis,
        )),
      )
