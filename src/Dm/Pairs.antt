-- ===== src/Dm/Pairs.antt =====
-- Opening the DM of two users, from either side.
use node_chat_api.Prelude.{
  ℕ, String, ◌≡◌, some, true, false, is_some, arith, ◌==◌, inl, inr, Option-cases,
}
use node_chat_api.Action.{ok}
use node_chat_api.Models.{Room}
use node_chat_api.World.{Backend, World, find_user, find_room}
use node_chat_api.Dm.{
  build_dm_key, DmResponse, to_dm_response, is_dm_of, dm_room, find_or_create_dm, existing_or_new,
  create_dm,
}

pub build_dm_key_comm : (u v : ℕ) → build_dm_key u v ≡ build_dm_key v u
build_dm_key_comm u v = ground arith

module _ ⦃b : Backend⦄ where
  -- The document that the collection finds under a key.
  abbrev pub IsOpen : ℕ × ℕ → World → Type 0
  IsOpen key w = (r : Room) × (b.rooms.find_one (is_dm_of key) w.rooms ≡ some r)

  -- A document of the collection that is the DM with a key.
  abbrev pub IsStored : Room → ℕ × ℕ → World → Type 0
  IsStored r key w = (is_dm_of key r ≡ true) × ((j : ℕ) × (find_room j w ≡ some r))

  pub found-IsStored :
      (key : ℕ × ℕ) (w : World) (r : Room)
      → b.rooms.find_one (is_dm_of key) w.rooms ≡ some r
      → IsStored r key w
  found-IsStored key w r e = (
    b.rooms.find_one-holds (is_dm_of key) w.rooms r e,
    b.rooms.find_one-stored (is_dm_of key) w.rooms r e,
  )

  dm_room-is_dm_of :
      (i u v now : ℕ) (name : String) → is_dm_of (build_dm_key u v) (dm_room i name u v now) ≡ true
  dm_room-is_dm_of i u v now name = ground arith

  pub stored-IsOpen :
      (i : ℕ) (key : ℕ × ℕ) (r : Room) (w : World)
      → find_room i w ≡ some r
      → is_dm_of key r ≡ true
      → IsOpen key w
  stored-IsOpen i key r w e m = elim (Option-cases (b.rooms.find_one (is_dm_of key) w.rooms)) [
    | inl none_found ↦
        absurd (ground (arith, b.rooms.find_one-none (is_dm_of key) w.rooms i r none_found e))
    | inr found ↦ found
  ]

  create_dm-IsOpen :
      (i : ℕ) (key : ℕ × ℕ) (r : Room) (w : World) (x : DmResponse)
      → is_dm_of key r ≡ true
      → (create_dm i key r w).0 ≡ ok x
      → IsOpen key (create_dm i key r w).1
  unfolding create_dm
  create_dm-IsOpen i key r w x m h = elim (Option-cases (b.rooms.create i r w.rooms)) [
    | inl failed ↦ elim (Option-cases (b.rooms.find_one (is_dm_of key) w.rooms)) [
      | inl missing ↦ absurd (ground arith)
      | inr (q, e) ↦ (q, ground arith)
    ]
    | inr (s, e) ↦
        let (q, f) =
          stored-IsOpen i key r (record w { rooms = s })
            (ground (arith, b.rooms.find_by_id-create i i r w.rooms s e)) m in
        (q, ground arith)
  ]

  existing_or_new-IsOpen :
      (i : ℕ) (key : ℕ × ℕ) (r : Room) (w : World) (x : DmResponse)
      → is_dm_of key r ≡ true
      → (existing_or_new i key r (b.rooms.find_one (is_dm_of key) w.rooms) w).0 ≡ ok x
      → IsOpen key (existing_or_new i key r (b.rooms.find_one (is_dm_of key) w.rooms) w).1
  unfolding existing_or_new
  existing_or_new-IsOpen i key r w x m h =
      elim (Option-cases (b.rooms.find_one (is_dm_of key) w.rooms)) [
        | inl missing ↦
            let (q, e) = create_dm-IsOpen i key r w x m (ground arith) in (q, ground arith)
        | inr (q, e) ↦ (q, ground arith)
      ]

  create_dm_users :
      (i : ℕ) (key : ℕ × ℕ) (r : Room) (w : World) → (create_dm i key r w).1.users ≡ w.users
  unfolding create_dm
  create_dm_users i key r w = ground arith

  find_or_create_dm_users :
      (i u v : ℕ) (spelled : ℕ × ℕ → String) (w : World)
      → (find_or_create_dm i spelled u v w).1.users ≡ w.users
  unfolding find_or_create_dm existing_or_new
  find_or_create_dm_users i u v spelled w = ground (
    arith,
    create_dm_users i (build_dm_key u v) (dm_room i (spelled (build_dm_key u v)) u v w.now) w,
  )

  -- What a request that succeeded has shown, and what is there after it.
  pub opened :
      (i u v : ℕ) (spelled : ℕ × ℕ → String) (w : World) (x : DmResponse)
      → (find_or_create_dm i spelled u v w).0 ≡ ok x
      → ((u == v) ≡ false)
        × (is_some (find_user v w) ≡ true)
        × IsOpen (build_dm_key u v) (find_or_create_dm i spelled u v w).1
  unfolding find_or_create_dm
  opened i u v spelled w x h =
      let key : ℕ × ℕ = build_dm_key u v in
      let r : Room = dm_room i (spelled key) u v w.now in
      let (q, e) =
        existing_or_new-IsOpen i key r w x (dm_room-is_dm_of i u v w.now (spelled key))
          (ground arith) in
      (ground arith, ground arith, (q, ground arith))

  pub found_again :
      (i u v : ℕ) (spelled : ℕ × ℕ → String) (w : World) (r : Room)
      → (u == v) ≡ false
      → is_some (find_user v w) ≡ true
      → b.rooms.find_one (is_dm_of (build_dm_key u v)) w.rooms ≡ some r
      → find_or_create_dm i spelled u v w ≡ (ok (to_dm_response r), w)
  unfolding find_or_create_dm existing_or_new
  found_again i u v spelled w r ne known e = ground arith

  -- After a request that opened the DM of two users, both of whom exist, every further request for it,
  -- from either of the two, creates nothing and returns one and the same DM of these two, which is
  -- stored.
  pub find_or_create_dm_again :
      (i j u v : ℕ) (spelled : ℕ × ℕ → String) (w : World) (x : DmResponse)
      → is_some (find_user u w) ≡ true
      → (find_or_create_dm i spelled u v w).0 ≡ ok x
      → (r : Room) × IsStored r (build_dm_key u v) (find_or_create_dm i spelled u v w).1
        × (find_or_create_dm j spelled u v (find_or_create_dm i spelled u v w).1
            ≡ (ok (to_dm_response r), (find_or_create_dm i spelled u v w).1))
        × (find_or_create_dm j spelled v u (find_or_create_dm i spelled u v w).1
            ≡ (ok (to_dm_response r), (find_or_create_dm i spelled u v w).1))
  find_or_create_dm_again i j u v spelled w x known h =
      let w' : World = (find_or_create_dm i spelled u v w).1 in
      let (ne, target, (r, e)) = opened i u v spelled w x h in
      let users = find_or_create_dm_users i u v spelled w in
      (
        r,
        found-IsStored (build_dm_key u v) w' r e,
        found_again j u v spelled w' r ne (ground (arith, users)) e,
        found_again j v u spelled w' r (ground arith) (ground (arith, users))
            (rw (build_dm_key_comm v u) e),
      )
