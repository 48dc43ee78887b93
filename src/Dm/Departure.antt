-- ===== src/Dm/Departure.antt =====
-- A participant leaves a DM and opens it again.
use node_chat_api.Prelude.{
  ℕ, String, ◌≡◌, some, true, false, is_some, arith, ◌==◌, ==_refl, ap, ◌∙◌,
}
use node_chat_api.Action.{ok}
use node_chat_api.Models.{Room, Member, is_owner}
use node_chat_api.World.{Backend, World, find_user, find_room}
use node_chat_api.Members.{find_member, has_member, without_member}
use node_chat_api.Rooms.{leave_room}
use node_chat_api.Rooms.Roles.{has_member-without_member}
use node_chat_api.Rooms.Access.{leave_room_lem, leave_room_users}
use node_chat_api.Dm.{build_dm_key, to_dm_response, is_dm_of, find_or_create_dm}
use node_chat_api.Dm.Pairs.{IsStored, found-IsStored, stored-IsOpen, found_again}

module _ ⦃b : Backend⦄ where
  -- A user leaves the stored DM with another, who exists, and asks for it again. The request succeeds
  -- with a stored DM of the two and changes nothing, so that the user is still no member of the room
  -- that they left.
  pub find_or_create_dm-leave_room :
      (i j u v : ℕ) (spelled : ℕ × ℕ → String) (w : World) (r : Room) (m : Member)
      → find_room i w ≡ some r
      → is_dm_of (build_dm_key u v) r ≡ true
      → find_member u r.members ≡ some m
      → is_owner m.role ≡ false
      → (u == v) ≡ false
      → is_some (find_user v w) ≡ true
      → (q : Room) × IsStored q (build_dm_key u v) (leave_room i u w).1
        × (find_or_create_dm j spelled u v (leave_room i u w).1
            ≡ (ok (to_dm_response q), (leave_room i u w).1))
        × (s : Room) × (find_room i (find_or_create_dm j spelled u v (leave_room i u w).1).1
            ≡ some s)
        × (has_member u s.members ≡ false)
  find_or_create_dm-leave_room i j u v spelled w r m e pair found role ne known =
      let w' : World = (leave_room i u w).1 in
      let left : Room = record r { members = without_member u r.members } in
      let (answer, rooms) = leave_room_lem i u w r m e found role in
      let stored : find_room i w' ≡ some left = ground (arith, rooms i, ==_refl i) in
      let (q, opened) = stored-IsOpen i (build_dm_key u v) left w' stored pair in
      let again : find_or_create_dm j spelled u v w' ≡ (ok (to_dm_response q), w') =
        found_again j u v spelled w' q ne (ground (arith, leave_room_users i u w)) opened in
      (
        q,
        found-IsStored (build_dm_key u v) w' q opened,
        again,
        left,
        ap (λ p. find_room i p.1) again ∙ stored,
        ground (arith, has_member-without_member u u r.members, ==_refl u),
      )
