-- ===== src/Http/RoomsRouter.antt =====
-- routes/rooms.js: the router as one function, from a request to its middleware and its handler. Ids in
-- the path are ObjectIds. Of the reply, only the status is kept.
pub mod Access
pub mod Effects
pub mod Channels
use node_chat_api.Prelude.{ℕ, String, Option, some, List, Bool}
use node_chat_api.Text.{Text}
use node_chat_api.Action.{Action, pure, ◌>>=◌, ◌>>◌}
use node_chat_api.Models.{Message, admin, owner}
use node_chat_api.World.{Backend, World}
use node_chat_api.Messages.{Before}
use node_chat_api.Paginate.{Parsed}
use node_chat_api.Middleware.{
  Caller, Header, authenticate, require_verified, require_member, require_room_role,
}
use node_chat_api.Server.{Server, serve}
use node_chat_api.Http.{Reply}
use node_chat_api.Http.RoomController
use node_chat_api.Http.MessageController

-- A method and a path of the router, with the parameters, the query and the fields of the body that the
-- handler reads, and the ids that are made for new documents and tokens.
pub data RoomRequest : Type 0 where
  post_room : ℕ → Option String → Option String → Option Bool → RoomRequest
  get_rooms : Parsed → Parsed → RoomRequest
  post_join_invite : Option ℕ → RoomRequest
  get_room : ℕ → RoomRequest
  post_join : ℕ → RoomRequest
  post_leave : ℕ → RoomRequest
  get_search : ℕ → Text → Parsed → Parsed → RoomRequest
  get_members : ℕ → RoomRequest
  get_messages : ℕ → Before → Parsed → RoomRequest
  get_presence : ℕ → RoomRequest
  post_invite : ℕ → ℕ → RoomRequest
  get_receipts : ℕ → RoomRequest
  delete_room : ℕ → RoomRequest
  delete_member : ℕ → ℕ → RoomRequest
  put_role : ℕ → ℕ → Option String → RoomRequest

module _ ⦃b : Backend⦄ where
  -- The middleware of the route, after `authenticate`.
  unfoldable pub gate : RoomRequest → Caller → Action World Unit
  gate (post_room room_id name description is_private) c = require_verified c
  gate (get_rooms page page_size) c = pure tt
  gate (post_join_invite token) c = require_verified c
  gate (get_room room_id) c = require_member (some room_id) c
  gate (post_join room_id) c = do require_member (some room_id) c; require_verified c
  gate (post_leave room_id) c = require_member (some room_id) c
  gate (get_search room_id query page page_size) c = require_member (some room_id) c
  gate (get_members room_id) c = require_member (some room_id) c
  gate (get_messages room_id before limit) c = require_member (some room_id) c
  gate (get_presence room_id) c = require_member (some room_id) c
  gate (post_invite token room_id) c = do require_member (some room_id) c; require_verified c
  gate (get_receipts room_id) c = require_member (some room_id) c
  gate (delete_room room_id) c = do
    require_member (some room_id) c
    require_room_role owner (some room_id) c
  gate (delete_member room_id target_id) c = do
    require_member (some room_id) c
    require_room_role admin (some room_id) c
  gate (put_role room_id target_id role) c = do
    require_member (some room_id) c
    require_room_role admin (some room_id) c

  abbrev status_of : {A : Type 0} → Action Server (Reply A) → Action Server ℕ
  status_of m = do reply ← m; pure reply.status

  -- The text index is `engine`.
  unfoldable pub room_handler :
      (Text → (Message → Bool) → b.messages.State → List Message)
      → RoomRequest
      → Caller
      → Action Server ℕ
  room_handler engine (post_room room_id name description is_private) c =
      status_of (serve (RoomController.create_room room_id c.sub name description is_private))
  room_handler engine (get_rooms page page_size) c =
      status_of (serve (RoomController.list_rooms page page_size c.sub))
  room_handler engine (post_join_invite token) c =
      status_of (serve (RoomController.join_via_invite token c.sub))
  room_handler engine (get_room room_id) c =
      status_of (serve (RoomController.get_room_by_id room_id))
  room_handler engine (post_join room_id) c = status_of (RoomController.join_room room_id c.sub)
  room_handler engine (post_leave room_id) c =
      status_of (serve (RoomController.leave_room room_id c.sub))
  room_handler engine (get_search room_id query page page_size) c =
      status_of (serve (MessageController.search_messages engine room_id query page page_size))
  room_handler engine (get_members room_id) c =
      status_of (serve (RoomController.list_members room_id))
  room_handler engine (get_messages room_id before limit) c =
      status_of (MessageController.get_message_history c.sub room_id before limit)
  room_handler engine (get_presence room_id) c =
      status_of (serve (RoomController.get_room_presence room_id))
  room_handler engine (post_invite token room_id) c =
      status_of (serve (RoomController.create_invite token room_id c.sub))
  room_handler engine (get_receipts room_id) c =
      status_of (serve (RoomController.get_room_receipts room_id))
  room_handler engine (delete_room room_id) c =
      status_of (serve (RoomController.delete_room room_id c.sub))
  room_handler engine (delete_member room_id target_id) c =
      status_of (serve (RoomController.kick_member room_id c.sub target_id))
  room_handler engine (put_role room_id target_id role) c =
      status_of (serve (RoomController.set_member_role room_id c.sub target_id role))

  unfoldable pub rooms_router :
      (Text → (Message → Bool) → b.messages.State → List Message)
      → Header
      → RoomRequest
      → Action Server ℕ
  rooms_router engine header q = do
    caller ← serve (authenticate header)
    serve (gate q caller)
    room_handler engine q caller
