-- ===== src/Tests/RoomTests.antt =====
-- The room service and its routes on the state `start`.
use node_chat_api.Prelude.{
  ==_iff, ℕ, ◌+◌, ◌≡◌, ◌<◌, ◌≤◌, refl, some, List, [], ◌∷◌, true, arith, ◌==◌, if◌then◌else◌,
}
use node_chat_api.Action.{ok}
use node_chat_api.Models.{Role, RoomResponse, admin, role_rank}
use node_chat_api.World.{World, find_room}
use node_chat_api.Demo.{demo, start, general, secret}
use node_chat_api.Members.{push_member, without_member, assign_role}
use node_chat_api.Rooms.{
  to_room_response, fill_cache, kick_member, set_member_role, get_room_by_id, create_invite,
  join_via_invite, list_rooms, assignable,
}
use node_chat_api.Rooms.Calls.{Call, join, leave, kick, get, tick, step, run_calls}
use node_chat_api.Rooms.Invariant.{IsValid}
use node_chat_api.Rooms.Coherence.{IsCoherent}
use node_chat_api.Rooms.Race.{
  Overlaps, starts, calls as overlapping, finds, fills, get_room_by_id-Overlaps,
}
use node_chat_api.Rooms.Matrix.Refinement.{Follows, run_calls-Follows}
use node_chat_api.Rooms.Cache.{get_room_by_id-run_calls, stored_response}
use node_chat_api.Rooms.Authority.{Party}
use node_chat_api.Rooms.Invites.{join_via_invite-create_invite}
use node_chat_api.Rooms.Listing.{HasNoTies, listed, total_of, list_rooms_pages}
use node_chat_api.Middleware.{Caller, bearer, kick_route, set_role_route, get_route}
use node_chat_api.Middleware.Policy.{kick_route-outranks, set_role_route-outranks}

abbrev caller : ℕ → Caller
caller u = record { sub = u; username = "ann"; verified = true }

start-IsValid : IsValid start
start-IsValid j = ground arith

start-IsCoherent : IsCoherent start
start-IsCoherent j = tt

-- The owner leaves, and the admin who becomes owner kicks the member.
abbrev calls : List Call
calls = get 10 ∷ join 10 4 ∷ leave 10 1 ∷ tick 5 ∷ get 10 ∷ kick 10 2 3 ∷ join 11 3 ∷ []

get_room_by_id-run_calls_example :
    (get_room_by_id 10 (run_calls calls start)).0
    ≡ stored_response (find_room 10 (run_calls calls start))
get_room_by_id-run_calls_example = get_room_by_id-run_calls calls 10 start start-IsCoherent

run_calls-Follows_example : Follows calls start
run_calls-Follows_example = run_calls-Follows calls start start-IsValid

-- A read finds room 10, user 3 is kicked, and the read stores what it found.
abbrev overlapped : World
overlapped = (fill_cache 10 general (step (kick 10 2 3) start)).1

read-Overlaps : Overlaps start [] overlapped
read-Overlaps = fills [] [] 10 general (overlapping (kick 10 2 3) (finds 10 general refl starts))

stale : (get_room_by_id 10 overlapped).0 ≡ ok (to_room_response general)
unfolding get_room_by_id step kick_member
stale = refl

overlapped_later : overlapped.now + 300000 ≤ (run_calls (tick 300000 ∷ []) overlapped).now
unfolding run_calls step
overlapped_later = omega arith

get_room_by_id-Overlaps_example :
    (get_room_by_id 10 (run_calls (tick 300000 ∷ []) overlapped)).0
    ≡ stored_response (find_room 10 (run_calls (tick 300000 ∷ []) overlapped))
get_room_by_id-Overlaps_example =
    get_room_by_id-Overlaps start overlapped (tick 300000 ∷ []) 10 start-IsCoherent read-Overlaps
      overlapped_later

abbrev kicked : RoomResponse
kicked = to_room_response (record general { members = without_member 3 general.members })

kick_runs : (kick_route (bearer (caller 2)) 10 3 start).0 ≡ ok kicked
unfolding kick_route kick_member
kick_runs = refl

kick_route-outranks_example :
    (c : Caller) × (bearer (caller 2) ≡ bearer c)
    × (p : Party 10 c.sub 3 start) × (role_rank p.target.role < role_rank p.actor.role)
    × ((j : ℕ)
        → find_room j (kick_route (bearer (caller 2)) 10 3 start).1 ≡ (
            if 10 == j
            then some (record p.room { members = without_member 3 p.room.members })
            else find_room j start))
kick_route-outranks_example = kick_route-outranks (bearer (caller 2)) 10 3 start kicked kick_runs

abbrev promoted : RoomResponse
promoted = to_room_response (record general { members = assign_role 3 admin general.members })

promote_runs : (set_role_route (bearer (caller 1)) 10 3 "admin" start).0 ≡ ok promoted
unfolding set_role_route set_member_role
promote_runs = refl

set_role_route-outranks_example :
    (c : Caller) × (bearer (caller 1) ≡ bearer c)
    × (p : Party 10 c.sub 3 start) × (role : Role) × (assignable "admin" ≡ some role)
    × (role_rank role < role_rank p.actor.role)
    × ((j : ℕ)
        → find_room j (set_role_route (bearer (caller 1)) 10 3 "admin" start).1 ≡ (
            if 10 == j
            then some (record p.room { members = assign_role 3 role p.room.members })
            else find_room j start))
set_role_route-outranks_example =
    set_role_route-outranks (bearer (caller 1)) 10 3 "admin" start promoted promote_runs

owner_reads : (get_route (bearer (caller 1)) 11 start).0 ≡ ok (to_room_response secret)
unfolding get_route get_room_by_id
owner_reads = refl

join_via_invite-create_invite_example :
    let out =
      join_via_invite (some 7) 3 (record (create_invite 7 11 1 start).1 { now = 172800999 }) in
    let joined = record secret { members = push_member 3 172800999 secret.members } in
    (out.0 ≡ ok (to_room_response joined))
    × ((j : ℕ) → find_room j out.1 ≡ (if 11 == j then some joined else find_room j start))
join_via_invite-create_invite_example =
    join_via_invite-create_invite 7 11 1 3 172799999 start secret refl refl refl

rooms_apart : HasNoTies start
rooms_apart i j r q e f g = ground (arith, ==_iff 10 i, ==_iff 11 i, ==_iff 10 j, ==_iff 11 j)

list_rooms_pages_example :
    listed
      (total_of (list_rooms (record { page = 1; page_size = 1; skip = 0 }) 1 start).0)
      1
      1
      start
    ≡ to_room_response secret ∷ to_room_response general ∷ []
list_rooms_pages_example = list_rooms_pages 1 1 start (omega arith) rooms_apart
