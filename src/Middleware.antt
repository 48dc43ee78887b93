-- ===== src/Middleware.antt =====
-- The middleware of the room routes: authenticate.js, requireVerified.js, requireMember.js,
-- requireRoomRole.js, and the order in which routes/rooms.js runs it before a handler. Middleware that
-- calls `next()` returns, and the error that it throws otherwise ends the request.
pub mod Policy
use node_chat_api.Prelude.{ℕ, String, Option, none, some, Bool, not, ◌&&◌, is_some, ltb}
use node_chat_api.Errors.{unauthorized, forbidden}
use node_chat_api.Action.{Action, pure, throw, gets, or_throw, throw_if, ◌>>=◌, ◌>>◌}
use node_chat_api.Models.{Room, Role, RoomResponse, owner, admin, member, role_rank}
use node_chat_api.Backend.{matching}
use node_chat_api.World.{Backend, World, find_room}
use node_chat_api.Members.{has_member, find_member}
use node_chat_api.Rooms.{
  kick_member, set_member_role, delete_room, join_room, get_room_by_id, leave_room,
}

-- What the access token of a request says.
pub record Caller : Type 0 where
  pub sub : ℕ
  pub username : String
  pub verified : Bool

-- The header `Authorization`: not beginning with `Bearer`, or the token behind it, which `jwt.verify`
-- takes or refuses.
pub data Header : Type 0 where
  malformed : Header
  refused : Header
  bearer : Caller → Header

-- A path parameter that is no ObjectId, or the id.
abbrev pub Param : Type 0
Param = Option ℕ

-- `This action requires the '${minRole}' role or higher.`
abbrev pub needs_role : Role → String
needs_role owner = "This action requires the 'owner' role or higher."
needs_role admin = "This action requires the 'admin' role or higher."
needs_role member = "This action requires the 'member' role or higher."

module _ ⦃b : Backend⦄ where
  unfoldable pub authenticate : Header → Action World Caller
  authenticate malformed =
      throw (unauthorized "Authorization header missing or malformed." "UNAUTHORIZED")
  authenticate refused = throw (unauthorized "Invalid or expired token." "UNAUTHORIZED")
  authenticate (bearer c) = pure c

  unfoldable pub require_verified : Caller → Action World Unit
  require_verified caller = throw_if (not caller.verified) (
      forbidden
        "Email address not verified. Check your inbox or call POST /auth/resend-verification."
        "UNVERIFIED")

  unfoldable pub require_member : Param → Caller → Action World Unit
  require_member none caller = pure tt
  require_member (some room_id) caller = do
    found ← gets (find_room room_id)
    throw_if (is_some (matching (λ r. r.is_private && not (has_member caller.sub r.members)) found))
        (forbidden "This room is private. An invitation is required." "NOT_MEMBER")

  -- `room?.members?.[0]` under the projection that keeps the first entry of the caller.
  abbrev pub caller_role : ℕ → Option Room → Option Role
  caller_role user_id none = none
  caller_role user_id (some r) = elim (find_member user_id r.members) [
    | none ↦ none
    | some m ↦ some m.role
  ]

  unfoldable pub require_room_role : Role → Param → Caller → Action World Unit
  require_room_role min_role none caller = pure tt
  require_room_role min_role (some room_id) caller = do
    found ← gets (find_room room_id)
    role ←
        or_throw (caller_role caller.sub found)
          (forbidden "You are not a member of this room." "NOT_MEMBER")
    throw_if (ltb (role_rank role) (role_rank min_role))
        (forbidden (needs_role min_role) "INSUFFICIENT_ROLE")

  -- DELETE /:id/members/:userId
  unfoldable pub kick_route : Header → ℕ → ℕ → Action World RoomResponse
  unfolding authenticate require_member require_room_role
  kick_route header room_id target_id = do
    caller ← authenticate header
    require_member (some room_id) caller
    require_room_role admin (some room_id) caller
    kick_member room_id caller.sub target_id

  -- PUT /:id/members/:userId/role
  unfoldable pub set_role_route : Header → ℕ → ℕ → String → Action World RoomResponse
  unfolding authenticate require_member require_room_role
  set_role_route header room_id target_id role = do
    caller ← authenticate header
    require_member (some room_id) caller
    require_room_role admin (some room_id) caller
    set_member_role room_id caller.sub target_id role

  -- DELETE /:id
  pub delete_route : Header → ℕ → Action World Unit
  unfolding authenticate require_member require_room_role
  delete_route header room_id = do
    caller ← authenticate header
    require_member (some room_id) caller
    require_room_role owner (some room_id) caller
    delete_room room_id caller.sub

  -- POST /:id/join
  pub join_route : Header → ℕ → Action World RoomResponse
  unfolding authenticate require_member require_verified
  join_route header room_id = do
    caller ← authenticate header
    require_member (some room_id) caller
    require_verified caller
    join_room room_id caller.sub

  -- GET /:id
  unfoldable pub get_route : Header → ℕ → Action World RoomResponse
  unfolding authenticate require_member
  get_route header room_id = do
    caller ← authenticate header
    require_member (some room_id) caller
    get_room_by_id room_id

  -- POST /:id/leave
  pub leave_route : Header → ℕ → Action World (Option RoomResponse)
  unfolding authenticate require_member
  leave_route header room_id = do
    caller ← authenticate header
    require_member (some room_id) caller
    leave_room room_id caller.sub
