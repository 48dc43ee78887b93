-- ===== src/Rooms/Cache.antt =====
-- The room cache (`room:{id}`) never disagrees with the collection.
use node_chat_api.Prelude.{
  ℕ, ◌≤◌, String, ◌≡◌, refl, Option, none, some, List, [], ◌∷◌, Bool, arith, inl, inr, Option-cases,
  ◌∙◌,
}
use node_chat_api.Errors.{not_found}
use node_chat_api.Action.{Result, ok, err}
use node_chat_api.Models.{Room, Member, RoomResponse}
use node_chat_api.Backend.{Key, room_json, invite_json}
use node_chat_api.World.{Backend, World, find_room}
use node_chat_api.Members.{is_user, assign_role}
use node_chat_api.Rooms.Roles.{length-set_role_first}
use node_chat_api.Receipts.{del_receipts}
use node_chat_api.Rooms.{
  to_room_response, create_room, insert_room, get_room_by_id, from_cache, create_invite,
  set_member_role, delete_room, del_unread_all, assignable, invite_ttl, room_cache_ttl,
}
use node_chat_api.Rooms.Calls.{
  Call, create, get, join, leave, invite, kick, set_role, delete, tick, step, run_calls,
  run_calls_induction,
}
use node_chat_api.Rooms.Coherence.{
  IsCoherent, IsCoherentAfter, cached-del, join_room-IsCoherentAfter,
  join_via_invite-IsCoherentAfter, kick_member-IsCoherentAfter, leave_room-IsCoherentAfter,
}

module _ ⦃b : Backend⦄ where
  cached-del_unread_all :
      (i j : ℕ) (ms : List Member) (s : b.redis.State)
      → b.redis.entry (del_unread_all i ms s) (Key.room j) ≡ b.redis.entry s (Key.room j)
  unfolding del_unread_all
  cached-del_unread_all i j [] s = refl
  cached-del_unread_all i j (m ∷ ms) s =
      cached-del_unread_all i j ms _ ∙ b.redis.entry-del (Key.unread m.user_id i) (Key.room j) s

  cached-del_receipts :
      (i j : ℕ) (ms : List Member) (s : b.redis.State)
      → b.redis.entry (del_receipts i ms s) (Key.room j) ≡ b.redis.entry s (Key.room j)
  cached-del_receipts i j [] s = refl
  cached-del_receipts i j (m ∷ ms) s =
      cached-del_receipts i j ms _ ∙ b.redis.entry-del (Key.last_read m.user_id i) (Key.room j) s

module _ ⦃b : Backend⦄ (d : ℕ) where
  -- A change of a role shows in no response, so the cache may stay.
  set_member_role-IsCoherentAfter :
      (i a t : ℕ) (name : String) (w : World)
      → IsCoherentAfter d w
      → IsCoherentAfter d (set_member_role i a t name w).1
  unfolding set_member_role
  set_member_role-IsCoherentAfter i a t name w h j = elim (Option-cases (find_room i w)) [
    | inl e ↦ ground (arith, h j)
    | inr (r, e) ↦ elim (Option-cases (assignable name)) [
      | inl bad ↦ ground (arith, h j)
      | inr (x, q) ↦ ground (
        arith,
        h j,
        length-set_role_first (is_user t) x r.members,
        b.rooms.find_by_id-save i j (record r { members = assign_role t x r.members }) w.rooms,
      )
    ]
  ]

  insert_room-IsCoherentAfter :
      (i : ℕ) (r : Room) (w : World) → IsCoherentAfter d w → IsCoherentAfter d (insert_room i r w).1
  unfolding insert_room
  insert_room-IsCoherentAfter i r w h j = elim (Option-cases (b.rooms.create i r w.rooms)) [
    | inl e ↦ ground (arith, h j)
    | inr (s, e) ↦
        ground
          (arith, h j, b.rooms.find_by_id-create i j r w.rooms s, b.rooms.create-new i r w.rooms s)
  ]

  delete_room-IsCoherentAfter :
      (i u : ℕ) (w : World) → IsCoherentAfter d w → IsCoherentAfter d (delete_room i u w).1
  unfolding delete_room
  delete_room-IsCoherentAfter i u w h j = elim (Option-cases (find_room i w)) [
    | inl e ↦ ground (arith, h j)
    | inr (r, e) ↦ ground (
      arith,
      h j,
      cached-del i j w,
      cached-del_unread_all i j r.members (b.redis.del (Key.room i) w.redis),
      cached-del_receipts i j r.members
          (del_unread_all i r.members (b.redis.del (Key.room i) w.redis)),
      b.rooms.find_by_id-delete_one i j w.rooms,
    )
  ]

  create_invite-IsCoherentAfter :
      (t i u : ℕ) (w : World) → IsCoherentAfter d w → IsCoherentAfter d (create_invite t i u w).1
  unfolding create_invite
  create_invite-IsCoherentAfter t i u w h j = ground (
    arith,
    h j,
    b.redis.entry-set_ex w.now invite_ttl (Key.invite t) (Key.room j) (invite_json i u) w.redis,
  )

  get_room_by_id-IsCoherentAfter :
      (i : ℕ) (w : World) → IsCoherentAfter d w → IsCoherentAfter d (get_room_by_id i w).1
  unfolding get_room_by_id from_cache
  get_room_by_id-IsCoherentAfter i w h j = elim (Option-cases (find_room i w)) [
    | inl e ↦ ground (arith, h j)
    | inr (r, e) ↦ ground (
      arith,
      h j,
      b.redis.entry-set_ex w.now room_cache_ttl (Key.room i) (Key.room j)
          (room_json (to_room_response r)) w.redis,
    )
  ]

  create_room-IsCoherentAfter :
      (i u : ℕ) (name : String) (description : Option String) (p : Option Bool) (w : World)
      → IsCoherentAfter d w
      → IsCoherentAfter d (create_room i u name description p w).1
  unfolding create_room
  create_room-IsCoherentAfter i u name description p w h = insert_room-IsCoherentAfter i _ w h

  pub step-IsCoherentAfter :
      (c : Call) (w : World) → IsCoherentAfter d w → IsCoherentAfter d (step c w)
  unfolding step
  step-IsCoherentAfter (create i u name description p) w h =
      create_room-IsCoherentAfter i u name description p w h
  step-IsCoherentAfter (get i) w h = get_room_by_id-IsCoherentAfter i w h
  step-IsCoherentAfter (join i u) w h = join_room-IsCoherentAfter d i u w h
  step-IsCoherentAfter (leave i u) w h = leave_room-IsCoherentAfter d i u w h
  step-IsCoherentAfter (invite token i u) w h = create_invite-IsCoherentAfter token i u w h
  step-IsCoherentAfter (Call.redeem token u) w h = join_via_invite-IsCoherentAfter d token u w h
  step-IsCoherentAfter (kick i a t) w h = kick_member-IsCoherentAfter d i a t w h
  step-IsCoherentAfter (set_role i a t role) w h = set_member_role-IsCoherentAfter i a t role w h
  step-IsCoherentAfter (delete i u) w h = delete_room-IsCoherentAfter i u w h
  step-IsCoherentAfter (tick ms) w h = h

  pub run_calls-IsCoherentAfter :
      (cs : List Call) (w : World) → IsCoherentAfter d w → IsCoherentAfter d (run_calls cs w)
  run_calls-IsCoherentAfter = run_calls_induction (IsCoherentAfter d) step-IsCoherentAfter

module _ ⦃b : Backend⦄ where
  -- The answer that the collection gives.
  abbrev pub stored_response : Option Room → Result RoomResponse
  stored_response none = err (not_found "Room not found." "ROOM_NOT_FOUND")
  stored_response (some r) = ok (to_room_response r)

  pub coherent_after : (d : ℕ) (w : World) → IsCoherent w → IsCoherentAfter d w
  coherent_after d w h j = ground (arith, h j)

  pub IsCoherentAfter-mono :
      (d t : ℕ) (w : World) → d ≤ t → IsCoherentAfter d w → IsCoherentAfter t w
  IsCoherentAfter-mono d t w le h j = ground (arith, h j)

  pub get_room_by_id_after :
      (i : ℕ) (w : World)
      → IsCoherentAfter w.now w
      → (get_room_by_id i w).0 ≡ stored_response (find_room i w)
  unfolding get_room_by_id from_cache
  get_room_by_id_after i w h = ground (arith, h i, b.redis.get-entry w.now (Key.room i) w.redis)

  pub get_room_by_id_coherent :
      (i : ℕ) (w : World) → IsCoherent w → (get_room_by_id i w).0 ≡ stored_response (find_room i w)
  get_room_by_id_coherent i w h = get_room_by_id_after i w (coherent_after w.now w h)

  -- From a state whose cache agrees with the collection, after any sequence of calls of the room
  -- service (cached reads, joins, leaves, kicks, deletions, time passing), `getRoomById` answers what
  -- the collection holds: the response of the stored room, or ROOM_NOT_FOUND if there is none.
  pub get_room_by_id-run_calls :
      (cs : List Call) (i : ℕ) (w : World)
      → IsCoherent w
      → (get_room_by_id i (run_calls cs w)).0 ≡ stored_response (find_room i (run_calls cs w))
  get_room_by_id-run_calls cs i w h =
      let w' : World = run_calls cs w in
      get_room_by_id_after i w' (
        IsCoherentAfter-mono 0 w'.now w' (omega arith)
          (run_calls-IsCoherentAfter 0 cs w (coherent_after 0 w h)))
