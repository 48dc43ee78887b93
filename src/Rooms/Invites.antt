-- ===== src/Rooms/Invites.antt =====
-- Invites: an invite works once, for as long as it lives, and for private rooms too.
use node_chat_api.Prelude.{
  ℕ, ◌+◌, ◌≡◌, Option, none, some, Bool, true, false, not, arith, ltb, if◌then◌else◌, ◌==◌, ◌&&◌,
}
use node_chat_api.Errors.{Error, validation}
use node_chat_api.Action.{ok, err}
use node_chat_api.Models.{Room}
use node_chat_api.Backend.{Key, Value, invite_json, live}
use node_chat_api.World.{Backend, World, find_room}
use node_chat_api.Members.{has_member, push_member}
use node_chat_api.Rooms.{to_room_response, join_via_invite, create_invite, redeem, invite_ttl}

abbrev pub invalid_invite : Error
invalid_invite = validation "Invalid or expired invite token." "INVALID_TOKEN"

module _ ⦃b : Backend⦄ where
  abbrev pub invite_entry : ℕ → World → Option Value
  invite_entry t w = live w.now (b.redis.entry w.redis (Key.invite t))

  -- Redeeming writes no invite: it only takes keys away.
  redeem_spends :
      (t u : ℕ) (v : Option Value) (w : World)
      → b.redis.entry w.redis (Key.invite t) ≡ none
      → b.redis.entry (redeem u v w).1.redis (Key.invite t) ≡ none
  unfolding redeem
  redeem_spends t u (some (invite_json i c)) w h =
      let p : Room → Bool = λ r. not (has_member u r.members) in
      let f : Room → Room = λ r. record r { members = push_member u w.now r.members } in
      ground (
        arith,
        b.rooms.find_one_and_update-result i p f w.rooms,
        b.redis.entry-del (Key.room i) (Key.invite t) w.redis,
      )
  redeem_spends t u _ w h = h

  invite_spent :
      (t u : ℕ) (w : World)
      → b.redis.entry (join_via_invite (some t) u w).1.redis (Key.invite t) ≡ none
  unfolding join_via_invite
  invite_spent t u w =
      let (v, s) = b.redis.getdel w.now (Key.invite t) w.redis in
      redeem_spends t u v (record w { redis = s })
        (ground (
          arith,
          b.redis.getdel-del w.now (Key.invite t) w.redis,
          b.redis.entry-del (Key.invite t) (Key.invite t) w.redis,
        ))

  spent_invite_fails :
      (t u : ℕ) (w : World)
      → b.redis.entry w.redis (Key.invite t) ≡ none
      → (join_via_invite (some t) u w).0 ≡ err invalid_invite
  unfolding join_via_invite redeem
  spent_invite_fails t u w h = ground (
    arith,
    b.redis.getdel-get w.now (Key.invite t) w.redis,
    b.redis.get-entry w.now (Key.invite t) w.redis,
  )

  -- Whatever the first request with an invite token did (joined, found no room, was refused), a second
  -- request with the same token, by whomever, is refused with INVALID_TOKEN.
  pub join_via_invite_twice :
      (t u v : ℕ) (w : World)
      → (join_via_invite (some t) v (join_via_invite (some t) u w).1).0 ≡ err invalid_invite
  join_via_invite_twice t u v w =
      spent_invite_fails t v (join_via_invite (some t) u w).1 (invite_spent t u w)

  created :
      (t i u : ℕ) (w : World) (r : Room)
      → find_room i w ≡ some r
      → has_member u r.members ≡ true
      → create_invite t i u w ≡ (
        ok t,
        record w {
          redis = b.redis.set_ex w.now (Key.invite t) (invite_json i u) invite_ttl w.redis;
        },
      )
  unfolding create_invite
  created t i u w r e m = ground arith

  -- The rooms after an invite to room `i` was redeemed.
  redeemed_rooms :
      (i c v j : ℕ) (w : World) (r : Room)
      → find_room i w ≡ some r
      → has_member v r.members ≡ false
      → find_room j (redeem v (some (invite_json i c)) w).1 ≡ (
          if i == j
          then some (record r { members = push_member v w.now r.members })
          else find_room j w)
  unfolding redeem
  redeemed_rooms i c v j w r e n =
      let p : Room → Bool = λ r. not (has_member v r.members) in
      let f : Room → Room = λ r. record r { members = push_member v w.now r.members } in
      ground (
        arith,
        b.rooms.find_one_and_update-result i p f w.rooms,
        b.rooms.find_by_id-find_one_and_update i j p f w.rooms,
      )

  redeemed :
      (i c v : ℕ) (w : World) (r : Room)
      → find_room i w ≡ some r
      → has_member v r.members ≡ false
      → (redeem v (some (invite_json i c)) w).0
        ≡ ok (to_room_response (record r { members = push_member v w.now r.members }))
  unfolding redeem
  redeemed i c v w r e n =
      let p : Room → Bool = λ r. not (has_member v r.members) in
      let f : Room → Room = λ r. record r { members = push_member v w.now r.members } in
      ground (arith, b.rooms.find_one_and_update-result i p f w.rooms)

  -- An invite that a member of a room, public or private, made lets a user who is no member join for
  -- exactly 48 hours: the room then stored lists that user as a last, plain member and is otherwise as it
  -- was, as are all other rooms, and the answer shows it. After that the invite is refused and all rooms
  -- stay as they were.
  pub join_via_invite-create_invite :
      (t i u v ms : ℕ) (w : World) (r : Room)
      → find_room i w ≡ some r
      → has_member u r.members ≡ true
      → has_member v r.members ≡ false
      → let out =
          join_via_invite (some t) v (record (create_invite t i u w).1 { now = w.now + ms }) in
        let joined = record r { members = push_member v (w.now + ms) r.members } in
        (out.0 ≡ (if ltb ms 172800000 then ok (to_room_response joined) else err invalid_invite))
        × ((j : ℕ)
            → find_room j out.1
              ≡ (if ltb ms 172800000 && (i == j) then some joined else find_room j w))
  unfolding join_via_invite redeem
  join_via_invite-create_invite t i u v ms w r e m n =
      let s : b.redis.State =
        b.redis.set_ex w.now (Key.invite t) (invite_json i u) invite_ttl w.redis in
      let spent : World = record w {
        redis = (b.redis.getdel (w.now + ms) (Key.invite t) s).1;
        now = w.now + ms;
      } in
      let live =
        b.redis.entry-set_ex w.now invite_ttl (Key.invite t) (Key.invite t) (invite_json i u)
          w.redis in
      (
        ground (
          arith,
          created t i u w r e m,
          b.redis.getdel-get (w.now + ms) (Key.invite t) s,
          b.redis.get-entry (w.now + ms) (Key.invite t) s,
          live,
          redeemed i u v spent r e n,
        ),
        (λ j. ground (
          arith,
          created t i u w r e m,
          b.redis.getdel-get (w.now + ms) (Key.invite t) s,
          b.redis.get-entry (w.now + ms) (Key.invite t) s,
          live,
          redeemed_rooms i u v j spent r e n,
        )),
      )
