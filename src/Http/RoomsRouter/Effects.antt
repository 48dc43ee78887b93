-- ===== src/Http/RoomsRouter/Effects.antt =====
-- What a request to the router of the rooms does to the rooms: at most one call of the room service.
use node_chat_api.Prelude.{
  ℕ, ◌≡◌, ◌⊎◌, inl, inr, refl, List, [], ◌∷◌, String, Option, Bool, arith, Option-cases,
}
use node_chat_api.Text.{Text}
use node_chat_api.Action.{Action, Result, ok, err}
use node_chat_api.Http.{Reply}
use node_chat_api.Models.{Message, Member}
use node_chat_api.Paginate.{Parsed}
use node_chat_api.Messages
use node_chat_api.Messages.{Before}
use node_chat_api.Unread.{reset_unread}
use node_chat_api.Receipts
use node_chat_api.Presence
use node_chat_api.Rooms
use node_chat_api.Rooms.Roster
use node_chat_api.Rooms.Calls.{Call, step}
use node_chat_api.World.{Backend, World, find_user, find_room}
use node_chat_api.Middleware.{Caller, Header}
use node_chat_api.Server.{Server, serve}
use node_chat_api.Server.Connections.{join_user_to_room, join_all, join_channel, sockets_of}
use node_chat_api.Http.AuthController.{given}
use node_chat_api.Http.RoomController
use node_chat_api.Http.MessageController
use node_chat_api.Http.RoomsRouter.{
  RoomRequest, post_room, get_rooms, post_join_invite, get_room, post_join, post_leave, get_search,
  get_members, get_messages, get_presence, post_invite, get_receipts, delete_room, delete_member,
  put_role, room_handler, rooms_router, status_of,
}
use node_chat_api.Http.RoomsRouter.Access.{rooms_router-is_allowed}

module _ ⦃b : Backend⦄ where
  -- The rooms are those from before, or those after a call of the room service.
  abbrev pub Moves : World → World → Type 0
  Moves w v = (v.rooms ≡ w.rooms) ⊎ ((c : Call) × (v.rooms ≡ (step c w).rooms))

  create-Moves :
      (i u : ℕ) (name description : Option String) (p : Option Bool) (w : World)
      → Moves w (RoomController.create_room i u name description p w).1
  unfolding RoomController.create_room step
  create-Moves i u name description p w = elim (Option-cases (given name)) [
    | inl e ↦ inl (ground (arith, e))
    | inr (title, e) ↦ inr (Call.create i u title description p, ground (arith, e))
  ]

  set_role-Moves :
      (i u t : ℕ) (role : Option String) (w : World)
      → Moves w (RoomController.set_member_role i u t role w).1
  unfolding RoomController.set_member_role step
  set_role-Moves i u t role w = elim (Option-cases (given role)) [
    | inl e ↦ inl (ground (arith, e))
    | inr (name, e) ↦ inr (Call.set_role i u t name, ground (arith, e))
  ]

  named-keeps : (ms : List Member) (w : World) → (Roster.named ms w).1 ≡ w
  unfolding Roster.named
  named-keeps [] w = refl
  named-keeps (m ∷ ms) w = elim (Option-cases (find_user m.user_id w)) [
    | inl e ↦ ground (arith, e)
    | inr (u, e) ↦ ground (arith, e, named-keeps ms w)
  ]

  list_members-keeps : (i : ℕ) (w : World) → (Roster.list_members i w).1 ≡ w
  unfolding Roster.list_members
  list_members-keeps i w = elim (Option-cases (find_room i w)) [
    | inl e ↦ ground (arith, e)
    | inr (r, e) ↦ ground (arith, e, named-keeps r.members w)
  ]

  history-keeps :
      (i : ℕ) (before : Before) (limit : Parsed) (w : World)
      → (Messages.get_message_history i before limit w).1 ≡ w
  unfolding Messages.get_message_history
  history-keeps i before limit w = ground arith

  join_all-world : (ids : List ℕ) (i : ℕ) (s : Server) → (join_all ids i s).1.world ≡ s.world
  join_all-world [] i s = refl
  join_all-world (x ∷ xs) i s = join_all-world xs i (join_channel x i s).1

  join_room-Moves : (i u : ℕ) (s : Server) → Moves s.world (RoomController.join_room i u s).1.world
  unfolding RoomController.join_room step join_user_to_room
  join_room-Moves i u s = inr (
    Call.join i u,
    ground (
      arith,
      join_all-world (sockets_of u s.user_sockets) i
          (record s { world = (Rooms.join_room i u s.world).1 }),
    ),
  )

  pub status_from :
      {A : Type 0} (p : Result (Reply A) × Server) (s : Server) → (status_of (λ s. p) s).1 ≡ p.1
  status_from (ok a, s') s = refl
  status_from (err e, s') s = refl

  -- A controller on the server's state, of whose reply the status is kept.
  status_of-Moves :
      {A : Type 0} (m : Action Server (Reply A)) (s : Server)
      → Moves s.world (m s).1.world
      → Moves s.world (status_of m s).1.world
  status_of-Moves m s h = rw (status_from (m s) s) h

module _ ⦃b : Backend⦄ (engine : Text → (Message → Bool) → b.messages.State → List Message) where
  history-Moves :
      (u i : ℕ) (before : Before) (limit : Parsed) (s : Server)
      → Moves s.world (MessageController.get_message_history u i before limit s).1.world
  unfolding MessageController.get_message_history reset_unread Receipts.mark_read
  history-Moves u i before limit s = inl (ground (arith, history-keeps i before limit s.world))

  room_handler-Moves :
      (q : RoomRequest) (c : Caller) (s : Server)
      → Moves s.world (room_handler engine q c s).1.world
  unfolding room_handler step RoomController.get_room_by_id RoomController.join_room
      RoomController.leave_room RoomController.list_rooms Rooms.list_rooms
      RoomController.list_members RoomController.create_invite RoomController.join_via_invite
      RoomController.get_room_receipts Receipts.get_room_receipts RoomController.kick_member
      RoomController.delete_room RoomController.get_room_presence Presence.get_room_presence
      MessageController.search_messages Messages.search_messages
  room_handler-Moves (post_room i name description p) c s =
      status_of-Moves (serve (RoomController.create_room i c.sub name description p)) s
        (create-Moves i c.sub name description p s.world)
  room_handler-Moves (get_rooms page page_size) c s = inl (ground arith)
  room_handler-Moves (post_join_invite token) c s = inr (Call.redeem token c.sub, ground arith)
  room_handler-Moves (get_room i) c s = inr (Call.get i, ground arith)
  room_handler-Moves (post_join i) c s =
      status_of-Moves (RoomController.join_room i c.sub) s (join_room-Moves i c.sub s)
  room_handler-Moves (post_leave i) c s = inr (Call.leave i c.sub, ground arith)
  room_handler-Moves (get_search i query page page_size) c s = inl (ground arith)
  room_handler-Moves (get_members i) c s = inl (ground (arith, list_members-keeps i s.world))
  room_handler-Moves (get_messages i before limit) c s =
      status_of-Moves (MessageController.get_message_history c.sub i before limit) s
        (history-Moves c.sub i before limit s)
  room_handler-Moves (get_presence i) c s = inl (ground arith)
  room_handler-Moves (post_invite token i) c s = inr (Call.invite token i c.sub, ground arith)
  room_handler-Moves (get_receipts i) c s = inl (ground arith)
  room_handler-Moves (delete_room i) c s = inr (Call.delete i c.sub, ground arith)
  room_handler-Moves (delete_member i t) c s = inr (Call.kick i c.sub t, ground arith)
  room_handler-Moves (put_role i t role) c s =
      status_of-Moves (serve (RoomController.set_member_role i c.sub t role)) s
        (set_role-Moves i c.sub t role s.world)

  pub rooms_router-Moves :
      (header : Header) (q : RoomRequest) (s : Server)
      → Moves s.world (rooms_router engine header q s).1.world
  rooms_router-Moves header q s = elim (rooms_router-is_allowed engine header q s) [
    | inl (c, same, allowed, e) ↦ rw e (room_handler-Moves q c s)
    | inr (x, e, denied) ↦ rw e (inl refl)
  ]
