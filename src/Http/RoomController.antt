-- ===== src/Http/RoomController.antt =====
-- controllers/roomController.js and presenceController.js, and chains of routes/rooms.js that are not
-- in Middleware.antt.
use node_chat_api.Prelude.{ℕ, String, Option, none, some, List, [], ◌∷◌, Bool, any, length, ◌==◌}
use node_chat_api.Errors.{invalid}
use node_chat_api.Action.{Action, pure, gets, or_throw, ◌>>=◌, ◌>>◌}
use node_chat_api.Backend.{Value}
use node_chat_api.Models.{RoomResponse, User}
use node_chat_api.World.{Backend, World}
use node_chat_api.Paginate.{Parsed, Paginated, parse_pagination_query}
use node_chat_api.Rooms
use node_chat_api.Rooms.Roster.{MemberResponse}
use node_chat_api.Rooms.Roster
use node_chat_api.Receipts
use node_chat_api.Presence
use node_chat_api.Middleware.{Header, authenticate, require_verified, require_member}
use node_chat_api.Server.{Server, serve}
use node_chat_api.Server.Connections.{join_user_to_room}
use node_chat_api.Http.{Reply, reply_success, reply_created}
use node_chat_api.Http.AuthController.{given}

-- What is shown of a user who is present.
pub record PresentUser : Type 0 where
  pub id : ℕ
  pub username : String
  pub display_name : Option String
  pub avatar_url : Option String

abbrev pub to_present_user : User → PresentUser
to_present_user u = record {
  id = u.id;
  username = u.username;
  display_name = u.display_name;
  avatar_url = u.avatar_url;
}

abbrev pub present_users : List User → List PresentUser
present_users [] = []
present_users (u ∷ us) = to_present_user u ∷ present_users us

module _ ⦃b : Backend⦄ where
  unfoldable pub create_room :
      ℕ → ℕ → Option String → Option String → Option Bool → Action World (Reply RoomResponse)
  create_room room_id user_id name description is_private = do
    title ← or_throw (given name) (invalid "name is required.")
    room ← Rooms.create_room room_id user_id title description is_private
    pure (reply_created room)

  unfoldable pub list_rooms : Parsed → Parsed → ℕ → Action World (Reply (Paginated RoomResponse))
  list_rooms page page_size user_id = do
    result ← Rooms.list_rooms (parse_pagination_query page page_size) user_id
    pure (reply_success result)

  unfoldable pub get_room_by_id : ℕ → Action World (Reply RoomResponse)
  get_room_by_id room_id = do room ← Rooms.get_room_by_id room_id; pure (reply_success room)

  unfoldable pub join_room : ℕ → ℕ → Action Server (Reply RoomResponse)
  join_room room_id user_id = do
    room ← serve (Rooms.join_room room_id user_id)
    join_user_to_room user_id room_id
    pure (reply_success room)

  unfoldable pub leave_room : ℕ → ℕ → Action World (Reply Unit)
  leave_room room_id user_id = do left ← Rooms.leave_room room_id user_id; pure (reply_success tt)

  unfoldable pub list_members : ℕ → Action World (Reply (List MemberResponse))
  list_members room_id = do result ← Roster.list_members room_id; pure (reply_success result)

  unfoldable pub create_invite : ℕ → ℕ → ℕ → Action World (Reply ℕ)
  create_invite token room_id user_id = do
    invite ← Rooms.create_invite token room_id user_id
    pure (reply_success invite)

  unfoldable pub join_via_invite : Option ℕ → ℕ → Action World (Reply RoomResponse)
  join_via_invite token user_id = do
    room ← Rooms.join_via_invite token user_id
    pure (reply_success room)

  unfoldable pub get_room_receipts : ℕ → Action World (Reply (List (ℕ × Value)))
  get_room_receipts room_id = do
    receipts ← Receipts.get_room_receipts room_id
    pure (reply_success receipts)

  unfoldable pub kick_member : ℕ → ℕ → ℕ → Action World (Reply RoomResponse)
  kick_member room_id user_id target_id = do
    room ← Rooms.kick_member room_id user_id target_id
    pure (reply_success room)

  unfoldable pub set_member_role : ℕ → ℕ → ℕ → Option String → Action World (Reply RoomResponse)
  set_member_role room_id user_id target_id role = do
    new_role ← or_throw (given role) (invalid "role is required.")
    room ← Rooms.set_member_role room_id user_id target_id new_role
    pure (reply_success room)

  -- An empty response.
  unfoldable pub delete_room : ℕ → ℕ → Action World (Reply Unit)
  delete_room room_id user_id = do
    Rooms.delete_room room_id user_id
    pure (record { status = 204; body = none })

  -- The users, and their number.
  unfoldable pub get_room_presence : ℕ → Action World (Reply (List PresentUser × ℕ))
  get_room_presence room_id = do
    user_ids ← Presence.get_room_presence room_id
    users ← gets (λ w. b.users.find (λ u. any (λ i. i == u.id) user_ids) w.users)
    pure (reply_success (present_users users, length users))

  -- POST /
  pub create_room_route :
      Header → ℕ → Option String → Option String → Option Bool → Action World (Reply RoomResponse)
  unfolding create_room
  create_room_route header room_id name description is_private = do
    caller ← authenticate header
    require_verified caller
    create_room room_id caller.sub name description is_private

  -- POST /join-invite
  pub join_invite_route : Header → Option ℕ → Action World (Reply RoomResponse)
  unfolding join_via_invite
  join_invite_route header token = do
    caller ← authenticate header
    require_verified caller
    join_via_invite token caller.sub

  -- GET /:id/members
  pub members_route : Header → ℕ → Action World (Reply (List MemberResponse))
  unfolding list_members
  members_route header room_id = do
    caller ← authenticate header
    require_member (some room_id) caller
    list_members room_id

  -- POST /:id/invite
  pub invite_route : Header → ℕ → ℕ → Action World (Reply ℕ)
  unfolding create_invite
  invite_route header token room_id = do
    caller ← authenticate header
    require_member (some room_id) caller
    require_verified caller
    create_invite token room_id caller.sub
