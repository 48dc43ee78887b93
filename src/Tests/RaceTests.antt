-- ===== src/Tests/RaceTests.antt =====
-- Requests that overlap, on the state `start`.
use node_chat_api.Prelude.{ℕ, ◌≡◌, String, some, [], ◌∷◌, false, refl, arith}
use node_chat_api.Errors.{duplicate_key}
use node_chat_api.Action.{ok, err}
use node_chat_api.Models.{Room, RoomResponse}
use node_chat_api.World.{World, find_room}
use node_chat_api.Demo.{demo, start, general}
use node_chat_api.Members.{has_member, without_member}
use node_chat_api.Rooms.{to_room_response, kick_loaded, join_room}
use node_chat_api.Rooms.Invariant.{IsValid}
use node_chat_api.Rooms.Access.{joined}
use node_chat_api.Rooms.Overlap.{
  starts, loads, resumes, leaving, kicking, resume, Overlapped-IsValid,
}
use node_chat_api.Rooms.Overlap.Lost.{kick_loaded-join_room}
use node_chat_api.Dm.Pairs.{IsStored}
use node_chat_api.Dm.{
  find_or_create_dm, create_dm, build_dm_key, to_dm_response, DmResponse, dm_room,
}
use node_chat_api.Dm.Race.{create_dm-find_or_create_dm, find_or_create_dm-name_taken}

start-IsValid : IsValid start
start-IsValid j = ground arith

-- The owner leaves while the admin kicks the member: both have loaded room 10 first.
abbrev both_done : World
both_done = resume (kicking 2 3, 10, general) (resume (leaving 1, 10, general) start)

Overlapped-IsValid_example : IsValid both_done
Overlapped-IsValid_example = Overlapped-IsValid start both_done [] start-IsValid (
    resumes [] [] (kicking 2 3, 10, general)
      (resumes ((kicking 2 3, 10, general) ∷ []) [] (leaving 1, 10, general)
        (loads (kicking 2 3) 10 general refl (loads (leaving 1) 10 general refl starts))))

abbrev kicked : RoomResponse
kicked = to_room_response (record general { members = without_member 3 general.members })

kick_loaded-join_room_example :
    ((join_room 10 4 start).0 ≡ ok (to_room_response (joined 4 start general)))
    × (s : Room) × (find_room 10 (kick_loaded 10 2 3 general (join_room 10 4 start).1).1 ≡ some s)
    × (has_member 4 s.members ≡ false)
kick_loaded-join_room_example =
    kick_loaded-join_room 10 2 3 4 start general kicked refl refl refl refl

abbrev spelled : ℕ × ℕ → String
spelled k = "1:2"

abbrev opened : DmResponse
opened = to_dm_response (dm_room 31 "1:2" 2 1 1000)

other_opens : (find_or_create_dm 31 spelled 2 1 start).0 ≡ ok opened
unfolding find_or_create_dm
other_opens = refl

create_dm-find_or_create_dm_example :
    (q : Room) × IsStored q (build_dm_key 1 2) (find_or_create_dm 31 spelled 2 1 start).1
    × (create_dm 30
          (build_dm_key 1 2)
          (dm_room 30 "1:2" 1 2 1001)
          (find_or_create_dm 31 spelled 2 1 start).1
        ≡ (ok (to_dm_response q), (find_or_create_dm 31 spelled 2 1 start).1))
create_dm-find_or_create_dm_example =
    create_dm-find_or_create_dm 30 31 1 2 1001 spelled start opened refl other_opens

-- A group takes the name.
abbrev squatted : World
squatted = record start { rooms = (12, record general { id = 12; name = "1:2" }) ∷ start.rooms }

find_or_create_dm-name_taken_example :
    find_or_create_dm 30 spelled 1 2 squatted ≡ (err duplicate_key, squatted)
find_or_create_dm-name_taken_example =
    find_or_create_dm-name_taken 30 12 1 2 spelled squatted
      (record general { id = 12; name = "1:2" }) refl refl refl refl refl
