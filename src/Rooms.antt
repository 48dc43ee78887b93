-- ===== src/Rooms.antt =====
-- services/roomService.js. A `Room` document that was loaded, changed and saved is written back whole.
pub mod Roles
pub mod Heir
pub mod Calls
pub mod Coherence
pub mod Cache
pub mod Clock
pub mod Race
pub mod Matrix
pub mod Listing
pub mod Authority
pub mod Invites
pub mod Access
pub mod Valid
pub mod Invariant
pub mod Overlap
pub mod Deletion
pub mod Roster
use text.Mathlib.Text.{◌==◌ as str_eq}
use node_chat_api.Prelude.{
  ℕ, String, Option, none, some, List, [], ◌∷◌, Bool, true, false, not, ◌&&◌, ◌||◌, ◌≤◌, map,
  filter, find?, length, drop, take, get_or, is_some, leb, ◌==◌, if◌then◌else◌,
}
use node_chat_api.Errors.{
  Error, not_found, forbidden, validation, duplicate_key, type_error, schema_error,
}
use node_chat_api.Action.{
  Action, Result, ok, err, pure, throw, gets, or_throw, throw_if, ◌>>=◌, ◌>>◌,
}
use node_chat_api.Models.{
  Room, Member, Role, RoomType, RoomResponse, User, owner, admin, member, group, dm, role_rank,
  is_owner, is_admin,
}
use node_chat_api.Backend.{Key, Value, room_json, invite_json, matching}
use node_chat_api.World.{
  Backend, World, find_room, update_room, on_rooms, on_redis, redis_get, redis_getdel, redis_set_ex,
  redis_del,
}
use node_chat_api.Members.{
  is_dm, is_user, find_member, has_member, push_member, without_member, set_role_first, assign_role,
  is_other, is_other_admin, with_heir, owner_entry, owns,
}
use node_chat_api.Paginate.{Pagination, Paginated, paginated_response}
use node_chat_api.Unread.{clear_unread}
use node_chat_api.Receipts.{clear_receipt, clear_all_receipts}

abbrev pub room_cache_ttl : ℕ
room_cache_ttl = 300

abbrev pub invite_ttl : ℕ
invite_ttl = 172800

abbrev pub to_room_response : Room → RoomResponse
to_room_response r = record {
  id = r.id;
  name = r.name;
  description = r.description;
  created_by = r.created_by;
  member_count = length r.members;
  is_private = r.is_private;
  type = r.type;
  created_at = r.created_at;
}

-- The checks of `joinRoom` and `joinViaInvite` when no document was updated.
abbrev or_not_found : {S : Type 0} → Option Room → String → Action S Room
or_not_found o message = or_throw o (not_found message "ROOM_NOT_FOUND")

module _ ⦃b : Backend⦄ where
  abbrev pub load_room : ℕ → Action World Room
  load_room room_id = do found ← gets (find_room room_id); or_not_found found "Room not found."

  insert_room : ℕ → Room → Action World RoomResponse
  insert_room room_id room w =
      if str_eq room.name ""
      then (err schema_error, w)
      else elim (b.rooms.create room_id room w.rooms) [
        | none ↦ (err duplicate_key, w)
        | some s ↦ (ok (to_room_response room), record w { rooms = s })
      ]

  -- `room_id` is the id that the driver makes for the new document. The schema trims the name, and
  -- `required` refuses an empty one.
  pub create_room : ℕ → ℕ → String → Option String → Option Bool → Action World RoomResponse
  unfolding insert_room
  create_room room_id user_id name description is_private = do
    now ← gets (λ w. w.now)
    insert_room room_id (record {
      id = room_id;
      name = b.trim name;
      description = description;
      created_by = user_id;
      members = (record { user_id = user_id; role = owner; joined_at = now }) ∷ [];
      is_private = get_or is_private false;
      type = group;
      dm_key = none;
      created_at = now;
    })

  -- The filter of `listRooms`.
  abbrev pub is_listed : ℕ → Room → Bool
  is_listed user_id r =
      not (is_dm r.type) && (not r.is_private || (r.is_private && has_member user_id r.members))

  unfoldable pub list_rooms : Pagination → ℕ → Action World (Paginated RoomResponse)
  list_rooms p user_id = gets λ w.
      paginated_response
        (map to_room_response
          (take p.page_size (drop p.skip (b.rooms.find_recent (is_listed user_id) w.rooms))))
        (b.rooms.count_documents (is_listed user_id) w.rooms) p.page p.page_size

  abbrev pub fill_cache : ℕ → Room → Action World Unit
  fill_cache room_id room =
      redis_set_ex (Key.room room_id) (room_json (to_room_response room)) room_cache_ttl

  -- A hit is the JSON that was stored; only `getRoomById` writes this key.
  from_cache : ℕ → Option Value → Action World RoomResponse
  from_cache room_id (some (room_json r)) = pure r
  from_cache room_id _ = do
    room ← load_room room_id
    fill_cache room_id room
    pure (to_room_response room)

  unfoldable pub get_room_by_id : ℕ → Action World RoomResponse
  unfolding from_cache
  get_room_by_id room_id = do cached ← redis_get (Key.room room_id); from_cache room_id cached

  join_result : ℕ → ℕ → Option Room → Action World RoomResponse
  join_result room_id user_id none = do
    existing ← load_room room_id
    throw_if existing.is_private (forbidden "Room is private." "NOT_MEMBER")
    pure (to_room_response existing)
  join_result room_id user_id (some room) = do
    redis_del (Key.room room_id)
    pure (to_room_response room)

  unfoldable pub join_room : ℕ → ℕ → Action World RoomResponse
  unfolding join_result
  join_room room_id user_id = do
    now ← gets (λ w. w.now)
    room ←
        update_room room_id (λ r. not r.is_private && not (has_member user_id r.members))
          (λ r. record r { members = push_member user_id now r.members })
    join_result room_id user_id room

  -- `room.members = …; await room.save()`
  abbrev pub save_members : ℕ → Room → List Member → Action World Unit
  save_members room_id room ms = on_rooms (b.rooms.save room_id (record room { members = ms }))

  pub leave_with : ℕ → ℕ → Room → List Member → Action World (Option RoomResponse)
  leave_with room_id user_id room ms = do
    save_members room_id room (without_member user_id ms)
    redis_del (Key.room room_id)
    clear_unread user_id room_id
    clear_receipt user_id room_id
    pure (some (to_room_response (record room { members = without_member user_id ms })))

  pub leave_as_owner : ℕ → ℕ → Room → Option (List Member) → Action World (Option RoomResponse)
  unfolding leave_with
  leave_as_owner room_id user_id room (some promoted) = leave_with room_id user_id room promoted
  leave_as_owner room_id user_id room none = do
    on_rooms (b.rooms.delete_one room_id)
    redis_del (Key.room room_id)
    clear_unread user_id room_id
    clear_receipt user_id room_id
    pure none

  -- `leaveRoom` once it has loaded the room; so too below.
  abbrev pub leave_loaded : ℕ → ℕ → Room → Action World (Option RoomResponse)
  leave_loaded room_id user_id room = do
    leaving ←
        or_throw (find_member user_id room.members) (forbidden "You are not a member." "NOT_MEMBER")
    if is_owner leaving.role
        then leave_as_owner room_id user_id room (with_heir user_id room.members)
        else leave_with room_id user_id room room.members

  pub leave_room : ℕ → ℕ → Action World (Option RoomResponse)
  unfolding leave_as_owner
  leave_room room_id user_id = do room ← load_room room_id; leave_loaded room_id user_id room

  unfoldable pub create_invite : ℕ → ℕ → ℕ → Action World ℕ
  create_invite token room_id user_id = do
    found ← gets (find_room room_id)
    throw_if (not (is_some (matching (λ r. has_member user_id r.members) found)))
        (forbidden "Room not found or you are not a member." "NOT_MEMBER")
    redis_set_ex (Key.invite token) (invite_json room_id user_id) invite_ttl
    pure token

  invited : ℕ → ℕ → Option Room → Action World RoomResponse
  invited room_id user_id none = do
    found ← gets (find_room room_id)
    existing ← or_not_found found "Room no longer exists."
    pure (to_room_response existing)
  invited room_id user_id (some room) = do
    redis_del (Key.room room_id)
    pure (to_room_response room)

  redeem : ℕ → Option Value → Action World RoomResponse
  unfolding invited
  redeem user_id (some (invite_json room_id created_by)) = do
    now ← gets (λ w. w.now)
    room ←
        update_room room_id (λ r. not (has_member user_id r.members))
          (λ r. record r { members = push_member user_id now r.members })
    invited room_id user_id room
  redeem user_id _ = throw (validation "Invalid or expired invite token." "INVALID_TOKEN")

  -- The token of the query string, if there is one.
  unfoldable pub join_via_invite : Option ℕ → ℕ → Action World RoomResponse
  unfolding redeem
  join_via_invite none user_id = throw (validation "Invite token is required" "MISSING_TOKEN")
  join_via_invite (some token) user_id = do
    raw ← redis_getdel (Key.invite token)
    redeem user_id raw

  abbrev pub kick_loaded : ℕ → ℕ → ℕ → Room → Action World RoomResponse
  kick_loaded room_id actor_id target_id room = do
    actor ←
        or_throw (find_member actor_id room.members)
          (forbidden "You are not a member." "NOT_MEMBER")
    target ←
        or_throw (find_member target_id room.members)
          (not_found "Target user is not a member." "TARGET_NOT_MEMBER")
    throw_if (is_owner target.role) (forbidden "Cannot kick the room owner." "KICK_OWNER")
    throw_if (is_admin actor.role && leb (role_rank admin) (role_rank target.role))
        (forbidden "Admins cannot kick other admins." "INSUFFICIENT_ROLE")
    save_members room_id room (without_member target_id room.members)
    clear_unread target_id room_id
    redis_del (Key.room room_id)
    pure (to_room_response (record room { members = without_member target_id room.members }))

  unfoldable pub kick_member : ℕ → ℕ → ℕ → Action World RoomResponse
  kick_member room_id actor_id target_id = do
    room ← load_room room_id
    kick_loaded room_id actor_id target_id room

  -- `['admin', 'member'].includes(newRole)`
  abbrev pub assignable : String → Option Role
  assignable r =
      if str_eq r "admin" then some admin else if str_eq r "member" then some member else none

  unfoldable pub set_member_role : ℕ → ℕ → ℕ → String → Action World RoomResponse
  set_member_role room_id actor_id target_id new_role = do
    role ←
        or_throw (assignable new_role)
          (validation "Role must be \"admin\" or \"member\"." "INVALID_ROLE")
    room ← load_room room_id
    actor ←
        or_throw (find_member actor_id room.members)
          (forbidden "You are not a member." "NOT_MEMBER")
    target ←
        or_throw (find_member target_id room.members)
          (not_found "Target user is not a member." "TARGET_NOT_MEMBER")
    throw_if (is_owner target.role)
        (forbidden "Cannot change the owner's role." "CHANGE_OWNER_ROLE")
    throw_if (is_admin actor.role && is_admin role)
        (forbidden "Admins cannot promote to admin." "INSUFFICIENT_ROLE")
    save_members room_id room (assign_role target_id role room.members)
    pure (to_room_response (record room { members = assign_role target_id role room.members }))

  -- `for (const m of room.members) await clearUnread(m.userId, roomId)`
  pub del_unread_all : ℕ → List Member → b.redis.State → b.redis.State
  del_unread_all room_id [] s = s
  del_unread_all room_id (m ∷ ms) s =
      del_unread_all room_id ms (b.redis.del (Key.unread m.user_id room_id) s)

  abbrev pub delete_loaded : ℕ → ℕ → Room → Action World Unit
  delete_loaded room_id user_id room = do
    throw_if (not (owns user_id room.members))
        (forbidden "Only the room owner can delete the room." "INSUFFICIENT_ROLE")
    on_rooms (b.rooms.delete_one room_id)
    redis_del (Key.room room_id)
    on_redis (del_unread_all room_id room.members)
    clear_all_receipts room_id room.members

  pub delete_room : ℕ → ℕ → Action World Unit
  delete_room room_id user_id = do room ← load_room room_id; delete_loaded room_id user_id room
