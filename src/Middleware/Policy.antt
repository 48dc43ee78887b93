-- ===== src/Middleware/Policy.antt =====
-- Who gets through the middleware, and what a request that got through to its handler has done.
use node_chat_api.Prelude.{
  ℕ, ◌<◌, ◌≡◌, ◌⊎◌, String, Option, none, some, Bool, true, false, not, ◌||◌, arith, inl, inr, ◌==◌,
  refl, if◌then◌else◌, Option-cases, leb,
}
use node_chat_api.Errors.{Error, forbidden}
use node_chat_api.Action.{ok, err}
use node_chat_api.Models.{Room, Member, Role, RoomResponse, admin, role_rank}
use node_chat_api.World.{Backend, World, find_room}
use node_chat_api.Members.{has_member, find_member, without_member, assign_role}
use node_chat_api.Rooms.{to_room_response, kick_member, set_member_role, assignable}
use node_chat_api.Rooms.Authority.{
  Party, kick_member-Party, kick_member_effect, set_member_role-Party, set_member_role_effect,
}
use node_chat_api.Rooms.Coherence.{IsCoherent}
use node_chat_api.Rooms.Cache.{get_room_by_id_coherent}
use node_chat_api.Middleware.{
  Caller, Header, malformed, refused, bearer, require_member, require_room_role, kick_route,
  set_role_route, get_route,
}

abbrev pub not_invited : Error
not_invited = forbidden "This room is private. An invitation is required." "NOT_MEMBER"

-- May see the room: it is not there, it is public, or the user is a member.
abbrev pub is_visible : ℕ → Option Room → Bool
is_visible u none = true
is_visible u (some r) = not r.is_private || has_member u r.members

module _ ⦃b : Backend⦄ where
  -- `requireMember` lets a request through exactly when the room is missing, public, or has the caller
  -- as a member; otherwise it answers 403 NOT_MEMBER. It changes nothing.
  pub require_member-is_visible :
      (i : ℕ) (c : Caller) (w : World)
      → require_member (some i) c w
        ≡ ((if is_visible c.sub (find_room i w) then ok tt else err not_invited), w)
  unfolding require_member
  require_member-is_visible i c w = ground arith

  -- What a request that passed a check of the role has shown.
  caller_passes :
      (i : ℕ) (c : Caller) (w : World) (r : Room) (m : Member) (least : Role)
      → find_room i w ≡ some r
      → find_member c.sub r.members ≡ some m
      → (require_room_role least (some i) c w).0 ≡ ok tt
      → leb (role_rank least) (role_rank m.role) ≡ true
  unfolding require_room_role
  caller_passes i c w r m least e f h = ground arith

  kick_route_passes :
      (i t : ℕ) (c : Caller) (w : World) (x : RoomResponse)
      → (kick_route (bearer c) i t w).0 ≡ ok x
      → (kick_route (bearer c) i t w ≡ kick_member i c.sub t w)
        × ((require_room_role admin (some i) c w).0 ≡ ok tt)
  unfolding kick_route
  kick_route_passes i t c w x h = ground arith

  set_role_route_passes :
      (i t : ℕ) (c : Caller) (name : String) (w : World) (x : RoomResponse)
      → (set_role_route (bearer c) i t name w).0 ≡ ok x
      → (set_role_route (bearer c) i t name w ≡ set_member_role i c.sub t name w)
        × ((require_room_role admin (some i) c w).0 ≡ ok tt)
  unfolding set_role_route
  set_role_route_passes i t c name w x h = ground arith

  -- A request DELETE /:id/members/:userId that succeeds carried an accepted token; its caller and the
  -- target are members of the room, the caller's role ranks above the target's, and the request took
  -- the target's entry out of that room and changed no other room.
  pub kick_route-outranks :
      (h : Header) (i t : ℕ) (w : World) (x : RoomResponse)
      → (kick_route h i t w).0 ≡ ok x
      → (c : Caller) × (h ≡ bearer c)
        × (p : Party i c.sub t w) × (role_rank p.target.role < role_rank p.actor.role)
        × ((j : ℕ)
            → find_room j (kick_route h i t w).1 ≡ (
                if i == j
                then some (record p.room { members = without_member t p.room.members })
                else find_room j w))
  unfolding kick_route
  kick_route-outranks malformed i t w x s = absurd (ground arith)
  kick_route-outranks refused i t w x s = absurd (ground arith)
  kick_route-outranks (bearer c) i t w x s =
      let passes = kick_route_passes i t c w x s in
      let done : (kick_member i c.sub t w).0 ≡ ok x = ground arith in
      let p : Party i c.sub t w = kick_member-Party i c.sub t w x done in
      let eff = kick_member_effect i c.sub t w x p done in
      (
        c,
        refl,
        p,
        ground (
          arith,
          eff.0,
          p.not_owner,
          caller_passes i c w p.room p.actor admin p.stored p.acts passes.1,
        ),
        (λ j. ground (arith, eff.1 j)),
      )

  -- A request PUT /:id/members/:userId/role that succeeds gives a role below the caller's own to a
  -- member who is not the owner: the room differs in that role only, and no other room changes.
  pub set_role_route-outranks :
      (h : Header) (i t : ℕ) (name : String) (w : World) (x : RoomResponse)
      → (set_role_route h i t name w).0 ≡ ok x
      → (c : Caller) × (h ≡ bearer c)
        × (p : Party i c.sub t w) × (role : Role) × (assignable name ≡ some role)
        × (role_rank role < role_rank p.actor.role)
        × ((j : ℕ)
            → find_room j (set_role_route h i t name w).1 ≡ (
                if i == j
                then some (record p.room { members = assign_role t role p.room.members })
                else find_room j w))
  unfolding set_role_route
  set_role_route-outranks malformed i t name w x s = absurd (ground arith)
  set_role_route-outranks refused i t name w x s = absurd (ground arith)
  set_role_route-outranks (bearer c) i t name w x s =
      let passes = set_role_route_passes i t c name w x s in
      let done : (set_member_role i c.sub t name w).0 ≡ ok x = ground arith in
      let (role, named, p) = set_member_role-Party i c.sub t name w x done in
      let eff = set_member_role_effect i c.sub t name role w x named p done in
      (
        c,
        refl,
        p,
        role,
        named,
        ground (
          arith,
          eff.0,
          eff.1,
          caller_passes i c w p.room p.actor admin p.stored p.acts passes.1,
        ),
        (λ j. ground (arith, eff.2 j)),
      )

  -- What GET /:id shows of a room whose cache agrees with the collection: only a stored room that is
  -- public or has the caller as a member.
  pub get_route-is_visible :
      (h : Header) (i : ℕ) (w : World) (x : RoomResponse)
      → IsCoherent w
      → (get_route h i w).0 ≡ ok x
      → (c : Caller) × (h ≡ bearer c)
        × (r : Room) × (find_room i w ≡ some r)
        × (x ≡ to_room_response r)
        × ((r.is_private ≡ false) ⊎ (has_member c.sub r.members ≡ true))
  unfolding get_route
  get_route-is_visible malformed i w x coherent s = absurd (ground arith)
  get_route-is_visible refused i w x coherent s = absurd (ground arith)
  get_route-is_visible (bearer c) i w x coherent s = elim (Option-cases (find_room i w)) [
    | inl e ↦ absurd (ground (arith, get_room_by_id_coherent i w coherent))
    | inr (r, e) ↦
        (c, refl, r, e, ground (arith, get_room_by_id_coherent i w coherent), ground arith)
  ]
