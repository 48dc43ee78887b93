-- ===== src/Rooms/Coherence.antt =====
-- The cache after a change of one room: joining, leaving, kicks.
use node_chat_api.Prelude.{
  ℕ, ◌≡◌, Option, none, some, List, Bool, arith, inl, inr, ◌==◌, if◌then◌else◌, not, ◌&&◌, true,
  false, leb, Option-cases,
}
use node_chat_api.Models.{Room, Member}
use node_chat_api.Backend.{Key, Entry, Value, room_json, invite_json}
use node_chat_api.World.{Backend, World, find_room}
use node_chat_api.Members.{has_member, push_member, with_heir, without_member}
use node_chat_api.Rooms.{
  to_room_response, join_room, leave_room, leave_with, leave_as_owner, join_via_invite, redeem,
  kick_member,
}

-- A cached entry is the response of the room that is stored.
abbrev pub Agrees : Option Entry → Option Room → Type 0
Agrees none r = Unit
Agrees (some e) none = ⊥
Agrees (some e) (some r) = e.value ≡ room_json (to_room_response r)

-- The key expires at `d` at the latest.
abbrev pub ends_by : ℕ → Option ℕ → Bool
ends_by d none = false
ends_by d (some t) = leb t d

abbrev pub AgreesUnless : Bool → Value → Option Room → Type 0
AgreesUnless true v r = Unit
AgreesUnless false v none = ⊥
AgreesUnless false v (some r) = v ≡ room_json (to_room_response r)

-- It need not be, if it expires by `d`.
abbrev pub AgreesAfter : ℕ → Option Entry → Option Room → Type 0
AgreesAfter d none r = Unit
AgreesAfter d (some e) r = AgreesUnless (ends_by d e.expires) e.value r

module _ ⦃b : Backend⦄ where
  abbrev pub cached : ℕ → World → Option Entry
  cached j w = b.redis.entry w.redis (Key.room j)

  abbrev pub IsCoherent : World → Type 0
  IsCoherent w = (j : ℕ) → Agrees (cached j w) (find_room j w)

  abbrev pub IsCoherentAfter : ℕ → World → Type 0
  IsCoherentAfter d w = (j : ℕ) → AgreesAfter d (cached j w) (find_room j w)

  pub cached-del :
      (i j : ℕ) (w : World)
      → b.redis.entry (b.redis.del (Key.room i) w.redis) (Key.room j)
        ≡ (if i == j then none else cached j w)
  cached-del i j w = b.redis.entry-del (Key.room i) (Key.room j) w.redis

module _ ⦃b : Backend⦄ (d : ℕ) where
  pub join_room-IsCoherentAfter :
      (i u : ℕ) (w : World) → IsCoherentAfter d w → IsCoherentAfter d (join_room i u w).1
  unfolding join_room
  join_room-IsCoherentAfter i u w h j =
      let p : Room → Bool = λ r. not r.is_private && not (has_member u r.members) in
      let f : Room → Room = λ r. record r { members = push_member u w.now r.members } in
      ground (
        arith,
        h j,
        cached-del i j w,
        b.rooms.find_one_and_update-result i p f w.rooms,
        b.rooms.find_by_id-find_one_and_update i j p f w.rooms,
      )

  redeem-IsCoherentAfter :
      (u : ℕ) (v : Option Value) (w : World)
      → IsCoherentAfter d w
      → IsCoherentAfter d (redeem u v w).1
  unfolding redeem
  redeem-IsCoherentAfter u (some (invite_json i c)) w h j =
      let p : Room → Bool = λ r. not (has_member u r.members) in
      let f : Room → Room = λ r. record r { members = push_member u w.now r.members } in
      ground (
        arith,
        h j,
        cached-del i j w,
        b.rooms.find_one_and_update-result i p f w.rooms,
        b.rooms.find_by_id-find_one_and_update i j p f w.rooms,
      )
  redeem-IsCoherentAfter u _ w h j = h j

  pub join_via_invite-IsCoherentAfter :
      (t : Option ℕ) (u : ℕ) (w : World)
      → IsCoherentAfter d w
      → IsCoherentAfter d (join_via_invite t u w).1
  unfolding join_via_invite
  join_via_invite-IsCoherentAfter none u w h j = h j
  join_via_invite-IsCoherentAfter (some t) u w h j =
      let (v, s) = b.redis.getdel w.now (Key.invite t) w.redis in
      redeem-IsCoherentAfter u v (record w { redis = s })
        (λ k. ground (
          arith,
          h k,
          b.redis.getdel-del w.now (Key.invite t) w.redis,
          b.redis.entry-del (Key.invite t) (Key.room k) w.redis,
        ))
        j

  leave_with-IsCoherentAfter :
      (i u : ℕ) (r : Room) (ms : List Member) (w : World)
      → IsCoherentAfter d w
      → IsCoherentAfter d (leave_with i u r ms w).1
  unfolding leave_with
  leave_with-IsCoherentAfter i u r ms w h j = ground (
    arith,
    h j,
    cached-del i j w,
    b.redis.entry-del (Key.unread u i) (Key.room j) (b.redis.del (Key.room i) w.redis),
    b.redis.entry-del (Key.last_read u i) (Key.room j)
        (b.redis.del (Key.unread u i) (b.redis.del (Key.room i) w.redis)),
    b.rooms.find_by_id-save i j (record r { members = without_member u ms }) w.rooms,
  )

  leave_as_owner-IsCoherentAfter :
      (i u : ℕ) (r : Room) (o : Option (List Member)) (w : World)
      → IsCoherentAfter d w
      → IsCoherentAfter d (leave_as_owner i u r o w).1
  unfolding leave_as_owner
  leave_as_owner-IsCoherentAfter i u r (some ms) w h j = leave_with-IsCoherentAfter i u r ms w h j
  leave_as_owner-IsCoherentAfter i u r none w h j = ground (
    arith,
    h j,
    cached-del i j w,
    b.redis.entry-del (Key.unread u i) (Key.room j) (b.redis.del (Key.room i) w.redis),
    b.redis.entry-del (Key.last_read u i) (Key.room j)
        (b.redis.del (Key.unread u i) (b.redis.del (Key.room i) w.redis)),
    b.rooms.find_by_id-delete_one i j w.rooms,
  )

  pub leave_room-IsCoherentAfter :
      (i u : ℕ) (w : World) → IsCoherentAfter d w → IsCoherentAfter d (leave_room i u w).1
  unfolding leave_room
  leave_room-IsCoherentAfter i u w h j = elim (Option-cases (find_room i w)) [
    | inl e ↦ ground (arith, h j)
    | inr (r, e) ↦ ground (
      arith,
      h j,
      leave_as_owner-IsCoherentAfter i u r (with_heir u r.members) w h j,
      leave_with-IsCoherentAfter i u r r.members w h j,
    )
  ]

  pub kick_member-IsCoherentAfter :
      (i a t : ℕ) (w : World) → IsCoherentAfter d w → IsCoherentAfter d (kick_member i a t w).1
  unfolding kick_member
  kick_member-IsCoherentAfter i a t w h j = elim (Option-cases (find_room i w)) [
    | inl e ↦ ground (arith, h j)
    | inr (r, e) ↦ ground (
      arith,
      h j,
      b.redis.entry-del (Key.unread t i) (Key.room j) w.redis,
      b.redis.entry-del (Key.room i) (Key.room j) (b.redis.del (Key.unread t i) w.redis),
      b.rooms.find_by_id-save i j (record r { members = without_member t r.members }) w.rooms,
    )
  ]
