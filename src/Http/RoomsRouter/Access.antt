-- ===== src/Http/RoomsRouter/Access.antt =====
-- Who gets through the router of the rooms.
use node_chat_api.Prelude.{
  ℕ, ◌≡◌, ◌⊎◌, inl, inr, refl, Option, none, some, List, Bool, true, false, ◌&&◌, leb, arith,
  is_some, if◌then◌else◌, Bool-cases, Option-cases,
}
use node_chat_api.Text.{Text}
use node_chat_api.Errors.{Error, forbidden}
use node_chat_api.Action.{ok, err, ◌>>◌}
use node_chat_api.Models.{Message, Role, admin, owner, role_rank}
use node_chat_api.World.{Backend, World, find_room}
use node_chat_api.Middleware.{
  Caller, Header, malformed, refused, bearer, authenticate, require_member, require_verified,
  require_room_role, needs_role,
}
use node_chat_api.Middleware.Policy.{is_visible, require_member-is_visible, not_invited}
use node_chat_api.Rooms.Matrix.{matrix, has_member-role_at}
use node_chat_api.Server.{Server}
use node_chat_api.Http.RoomsRouter.{
  RoomRequest, post_room, get_rooms, post_join_invite, get_room, post_join, post_leave, get_search,
  get_members, get_messages, get_presence, post_invite, get_receipts, delete_room, delete_member,
  put_role, gate, room_handler, rooms_router,
}

abbrev pub ranks : Role → Option Role → Bool
ranks least none = false
ranks least (some x) = leb (role_rank least) (role_rank x)

module _ ⦃b : Backend⦄ where
  -- The access that each request needs: a verified address, sight of the room, a rank in it.
  abbrev pub is_allowed : RoomRequest → Caller → World → Bool
  is_allowed (post_room i name description p) c w = c.verified
  is_allowed (get_rooms page page_size) c w = true
  is_allowed (post_join_invite token) c w = c.verified
  is_allowed (get_room i) c w = is_visible c.sub (find_room i w)
  is_allowed (post_join i) c w = is_visible c.sub (find_room i w) && c.verified
  is_allowed (post_leave i) c w = is_visible c.sub (find_room i w)
  is_allowed (get_search i query page page_size) c w = is_visible c.sub (find_room i w)
  is_allowed (get_members i) c w = is_visible c.sub (find_room i w)
  is_allowed (get_messages i before limit) c w = is_visible c.sub (find_room i w)
  is_allowed (get_presence i) c w = is_visible c.sub (find_room i w)
  is_allowed (post_invite token i) c w = is_visible c.sub (find_room i w) && c.verified
  is_allowed (get_receipts i) c w = is_visible c.sub (find_room i w)
  is_allowed (delete_room i) c w = ranks owner (matrix w i c.sub)
  is_allowed (delete_member i t) c w = ranks admin (matrix w i c.sub)
  is_allowed (put_role i t role) c w = ranks admin (matrix w i c.sub)

  abbrev unverified : Error
  unverified =
      forbidden
        "Email address not verified. Check your inbox or call POST /auth/resend-verification."
        "UNVERIFIED"

  abbrev no_member : Error
  no_member = forbidden "You are not a member of this room." "NOT_MEMBER"

  abbrev too_low : Role → Error
  too_low least = forbidden (needs_role least) "INSUFFICIENT_ROLE"

  require_verified-verified :
      (c : Caller) (w : World)
      → require_verified c w ≡ ((if c.verified then ok tt else err unverified), w)
  unfolding require_verified
  require_verified-verified c w = ground arith

  -- Sight of the room, and a verified address.
  seen_and_verified :
      (i : ℕ) (c : Caller) (w : World)
      → (require_member (some i) c >> require_verified c) w ≡ (
        (if is_visible c.sub (find_room i w) && c.verified
            then ok tt
            else err (if is_visible c.sub (find_room i w) then unverified else not_invited)),
        w,
      )
  seen_and_verified i c w =
      ground (arith, require_member-is_visible i c w, require_verified-verified c w)

  -- Sight of the room, and a rank in it.
  seen_and_ranked :
      (least : Role) (i : ℕ) (c : Caller) (w : World)
      → (require_member (some i) c >> require_room_role least (some i) c) w ≡ (
        (if ranks least (matrix w i c.sub)
            then ok tt
            else err (
                if is_visible c.sub (find_room i w)
                then (if is_some (matrix w i c.sub) then too_low least else no_member)
                else not_invited)),
        w,
      )
  unfolding require_member require_room_role
  seen_and_ranked least i c w = elim (Option-cases (find_room i w)) [
    | inl e ↦ ground (arith, e)
    | inr (r, e) ↦ ground (arith, e, has_member-role_at c.sub r.members)
  ]

  -- The middleware of a request changes nothing, and it refuses what is not allowed.
  abbrev Decides : RoomRequest → Caller → World → Type 0
  Decides q c w = (x : Error) × (gate q c w ≡ ((if is_allowed q c w then ok tt else err x), w))

  gate-is_allowed : (q : RoomRequest) (c : Caller) (w : World) → Decides q c w
  unfolding gate
  gate-is_allowed (post_room i name description p) c w = (unverified, require_verified-verified c w)
  gate-is_allowed (get_rooms page page_size) c w = (unverified, refl)
  gate-is_allowed (post_join_invite token) c w = (unverified, require_verified-verified c w)
  gate-is_allowed (get_room i) c w = (not_invited, require_member-is_visible i c w)
  gate-is_allowed (post_join i) c w = (_, seen_and_verified i c w)
  gate-is_allowed (post_leave i) c w = (not_invited, require_member-is_visible i c w)
  gate-is_allowed (get_search i query page page_size) c w =
      (not_invited, require_member-is_visible i c w)
  gate-is_allowed (get_members i) c w = (not_invited, require_member-is_visible i c w)
  gate-is_allowed (get_messages i before limit) c w = (not_invited, require_member-is_visible i c w)
  gate-is_allowed (get_presence i) c w = (not_invited, require_member-is_visible i c w)
  gate-is_allowed (post_invite token i) c w = (_, seen_and_verified i c w)
  gate-is_allowed (get_receipts i) c w = (not_invited, require_member-is_visible i c w)
  gate-is_allowed (delete_room i) c w = (_, seen_and_ranked owner i c w)
  gate-is_allowed (delete_member i t) c w = (_, seen_and_ranked admin i c w)
  gate-is_allowed (put_role i t role) c w = (_, seen_and_ranked admin i c w)

  module _ (engine : Text → (Message → Bool) → b.messages.State → List Message) where
    admitted :
        (c : Caller) (q : RoomRequest) (s : Server) (x : Error)
        → gate q c s.world ≡ ((if is_allowed q c s.world then ok tt else err x), s.world)
        → rooms_router engine (bearer c) q s
          ≡ (if is_allowed q c s.world then room_handler engine q c s else (err x, s))
    unfolding rooms_router authenticate
    admitted c q s x e = ground (arith, e)

    -- Every request to the router of the rooms either carries an accepted token of a caller to whom it
    -- is allowed, and is handled as the handler of its route handles it for that caller, or fails in the
    -- middleware with an error and leaves the state as it was, and then it is allowed to nobody whose
    -- token it carries. To create a room and to redeem an invite need a verified address, to join a room
    -- or invite to it also sight of the room; to read anything of a room, or leave it, sight of it, that
    -- is, that it is missing, public, or has the caller as a member; to delete it, the rank of an owner;
    -- to remove a member or change a role, that of an admin; the list of rooms is for every caller.
    pub rooms_router-is_allowed :
        (header : Header) (q : RoomRequest) (s : Server)
        → ((c : Caller) × (header ≡ bearer c)
            × (is_allowed q c s.world ≡ true)
            × (rooms_router engine header q s ≡ room_handler engine q c s))
          ⊎ ((x : Error) × (rooms_router engine header q s ≡ (err x, s))
              × ((c : Caller) → header ≡ bearer c → is_allowed q c s.world ≡ false))
    unfolding rooms_router authenticate
    rooms_router-is_allowed malformed q s = inr (_, refl, (λ c e. absurd (ground arith)))
    rooms_router-is_allowed refused q s = inr (_, refl, (λ c e. absurd (ground arith)))
    rooms_router-is_allowed (bearer c) q s =
        let (x, e) = gate-is_allowed q c s.world in
        elim (Bool-cases (is_allowed q c s.world)) [
          | inl allowed ↦ inl (c, refl, allowed, ground (arith, admitted c q s x e))
          | inr denied ↦ inr (x, ground (arith, admitted c q s x e), (λ d same. ground arith))
        ]
