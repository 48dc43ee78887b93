-- ===== src/Rooms/Access.antt =====
-- Joining a public room and leaving it again.
use node_chat_api.Prelude.{
  ℕ, ◌≡◌, some, List, [], ◌∷◌, Bool, false, not, ◌&&◌, arith, ◌==◌, refl, if◌then◌else◌,
}
use node_chat_api.Action.{ok}
use node_chat_api.Models.{Room, Member, member, is_owner}
use node_chat_api.World.{Backend, World, find_room}
use node_chat_api.Members.{has_member, push_member, find_member, without_member}
use node_chat_api.Rooms.{to_room_response, join_room, leave_room, leave_with, leave_as_owner}

without-push :
    (u now : ℕ) (ms : List Member)
    → has_member u ms ≡ false
    → without_member u (push_member u now ms) ≡ ms
without-push u now [] h = ground arith
without-push u now (m ∷ ms) h = ground (arith, without-push u now ms)

find_member-push :
    (u now : ℕ) (ms : List Member)
    → has_member u ms ≡ false
    → find_member u (push_member u now ms)
      ≡ some (record { user_id = u; role = member; joined_at = now })
find_member-push u now [] h = ground arith
find_member-push u now (m ∷ ms) h = ground (arith, find_member-push u now ms)

module _ ⦃b : Backend⦄ where
  abbrev pub joined : ℕ → World → Room → Room
  joined u w r = record r { members = push_member u w.now r.members }

  pub join_room_lem :
      (i u : ℕ) (w : World) (r : Room)
      → find_room i w ≡ some r
      → r.is_private ≡ false
      → has_member u r.members ≡ false
      → ((join_room i u w).0 ≡ ok (to_room_response (joined u w r)))
        × ((j : ℕ)
            → find_room j (join_room i u w).1
              ≡ (if i == j then some (joined u w r) else find_room j w))
  unfolding join_room
  join_room_lem i u w r e open_room new =
      let p : Room → Bool = λ r. not r.is_private && not (has_member u r.members) in
      let f : Room → Room = λ r. record r { members = push_member u w.now r.members } in
      (
        ground (arith, b.rooms.find_one_and_update-result i p f w.rooms),
        (λ j. ground (
          arith,
          b.rooms.find_one_and_update-result i p f w.rooms,
          b.rooms.find_by_id-find_one_and_update i j p f w.rooms,
        )),
      )

  pub leave_room_users : (i u : ℕ) (w : World) → (leave_room i u w).1.users ≡ w.users
  unfolding leave_room leave_as_owner leave_with
  leave_room_users i u w = ground arith

  pub leave_room_lem :
      (i u : ℕ) (w : World) (r : Room) (m : Member)
      → find_room i w ≡ some r
      → find_member u r.members ≡ some m
      → is_owner m.role ≡ false
      → ((leave_room i u w).0
          ≡ ok (some (to_room_response (record r { members = without_member u r.members }))))
        × ((j : ℕ)
            → find_room j (leave_room i u w).1 ≡ (
                if i == j
                then some (record r { members = without_member u r.members })
                else find_room j w))
  unfolding leave_room leave_with
  leave_room_lem i u w r m e g o = (
    ground arith,
    (λ j. ground (
      arith,
      b.rooms.find_by_id-save i j (record r { members = without_member u r.members }) w.rooms,
    )),
  )

  -- A user who joins a public room of which they are no member, and then leaves it, gets the room's
  -- response both times and leaves every room as it was.
  pub leave_room-join_room :
      (i u : ℕ) (w : World) (r : Room)
      → find_room i w ≡ some r
      → r.is_private ≡ false
      → has_member u r.members ≡ false
      → ((leave_room i u (join_room i u w).1).0 ≡ ok (some (to_room_response r)))
        × ((j : ℕ) → find_room j (leave_room i u (join_room i u w).1).1 ≡ find_room j w)
  leave_room-join_room i u w r e open_room new =
      let step = join_room_lem i u w r e open_room new in
      let back =
        leave_room_lem i u (join_room i u w).1 (joined u w r)
          (record { user_id = u; role = member; joined_at = w.now }) (ground (arith, step.1 i))
          (find_member-push u w.now r.members new) refl in
      (
        ground (arith, back.0, without-push u w.now r.members),
        (λ j. ground (arith, back.1 j, step.1 j, without-push u w.now r.members)),
      )
