-- ===== src/Http/RoomsRouter/Channels.antt =====
-- What a request to the router of the rooms does to the channels: it takes no socket out of one.
use node_chat_api.Prelude.{ℕ, ◌≡◌, inl, inr, List, [], ◌∷◌, Bool, true, arith}
use node_chat_api.Text.{Text}
use node_chat_api.Action.{Action}
use node_chat_api.Models.{Message}
use node_chat_api.Paginate.{Parsed}
use node_chat_api.Messages.{Before}
use node_chat_api.World.{Backend}
use node_chat_api.Middleware.{Caller, Header}
use node_chat_api.Rooms
use node_chat_api.Server.{Server, serve}
use node_chat_api.Server.Connections.{join_user_to_room, join_all, join_channel, sockets_of}
use node_chat_api.Server.Connections.Hearing.{is_subscribed, is_subscribed-append}
use node_chat_api.Http.{Reply}
use node_chat_api.Http.RoomController
use node_chat_api.Http.MessageController
use node_chat_api.Http.RoomsRouter.{
  RoomRequest, post_room, get_rooms, post_join_invite, get_room, post_join, post_leave, get_search,
  get_members, get_messages, get_presence, post_invite, get_receipts, delete_room, delete_member,
  put_role, room_handler, rooms_router, status_of,
}
use node_chat_api.Http.RoomsRouter.Access.{rooms_router-is_allowed}
use node_chat_api.Http.RoomsRouter.Effects.{status_from}

module _ ⦃b : Backend⦄ (j i : ℕ) where
  -- A socket that is subscribed stays so.
  abbrev pub Stays : Server → Server → Type 0
  Stays s s' = is_subscribed j i s.channels ≡ true → is_subscribed j i s'.channels ≡ true

  join_all-Stays : (ids : List ℕ) (r : ℕ) (s : Server) → Stays s (join_all ids r s).1
  join_all-Stays [] r s h = h
  join_all-Stays (x ∷ xs) r s h =
      join_all-Stays xs r (join_channel x r s).1
        (ground (arith, is_subscribed-append j i s.channels ((x, r) ∷ [])))

  join_room-Stays : (r u : ℕ) (s : Server) → Stays s (RoomController.join_room r u s).1
  unfolding RoomController.join_room join_user_to_room
  join_room-Stays r u s h =
      let v : Server = (serve (Rooms.join_room r u) s).1 in
      ground (arith, join_all-Stays (sockets_of u v.user_sockets) r v h)

  history-Stays :
      (u r : ℕ) (before : Before) (limit : Parsed) (s : Server)
      → Stays s (MessageController.get_message_history u r before limit s).1
  unfolding MessageController.get_message_history
  history-Stays u r before limit s h = ground arith

  -- A controller of whose reply the status is kept.
  status_of-Stays :
      {A : Type 0} (m : Action Server (Reply A)) (s : Server)
      → Stays s (m s).1
      → Stays s (status_of m s).1
  status_of-Stays m s h = rw (status_from (m s) s) h

module _ ⦃b : Backend⦄ (engine : Text → (Message → Bool) → b.messages.State → List Message)
    (j i : ℕ) where
  room_handler-Stays :
      (q : RoomRequest) (c : Caller) (s : Server) → Stays j i s (room_handler engine q c s).1
  unfolding room_handler
  room_handler-Stays (post_room r name description p) c s h = ground arith
  room_handler-Stays (get_rooms page page_size) c s h = ground arith
  room_handler-Stays (post_join_invite token) c s h = ground arith
  room_handler-Stays (get_room r) c s h = ground arith
  room_handler-Stays (post_join r) c s h =
      status_of-Stays j i (RoomController.join_room r c.sub) s (join_room-Stays j i r c.sub s) h
  room_handler-Stays (post_leave r) c s h = ground arith
  room_handler-Stays (get_search r query page page_size) c s h = ground arith
  room_handler-Stays (get_members r) c s h = ground arith
  room_handler-Stays (get_messages r before limit) c s h =
      status_of-Stays j i (MessageController.get_message_history c.sub r before limit) s
        (history-Stays j i c.sub r before limit s) h
  room_handler-Stays (get_presence r) c s h = ground arith
  room_handler-Stays (post_invite token r) c s h = ground arith
  room_handler-Stays (get_receipts r) c s h = ground arith
  room_handler-Stays (delete_room r) c s h = ground arith
  room_handler-Stays (delete_member r t) c s h = ground arith
  room_handler-Stays (put_role r t role) c s h = ground arith

  pub rooms_router-Stays :
      (header : Header) (q : RoomRequest) (s : Server)
      → Stays j i s (rooms_router engine header q s).1
  rooms_router-Stays header q s = elim (rooms_router-is_allowed engine header q s) [
    | inl (c, same, allowed, e) ↦ rw e (room_handler-Stays q c s)
    | inr (x, e, denied) ↦ rw e (λ h. h)
  ]
