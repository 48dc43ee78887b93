-- ===== src/Dm/Race.antt =====
-- Two requests that open one DM at a time, and a name that is taken: the unique indexes at work.
use text.Mathlib.Text.{◌==◌ as str_eq}
use node_chat_api.Prelude.{
  ℕ, String, ◌≡◌, some, none, true, false, is_some, arith, ◌==◌, ==_refl, inl, inr, Option-cases,
  refl, ap, ◌∙◌,
}
use node_chat_api.Errors.{duplicate_key}
use node_chat_api.Action.{ok, err}
use node_chat_api.Models.{Room}
use node_chat_api.World.{Backend, World, find_user, find_room, same_room}
use node_chat_api.Dm.{
  build_dm_key, to_dm_response, is_dm_of, find_or_create_dm, create_dm, dm_room, DmResponse,
  created_by_other, existing_or_new,
}
use node_chat_api.Dm.Pairs.{IsStored, found-IsStored, stored-IsOpen, build_dm_key_comm}

module _ ⦃b : Backend⦄ where
  create_dm_blocked :
      (i j : ℕ) (key : ℕ × ℕ) (r e : Room) (w : World)
      → find_room j w ≡ some e
      → same_room r e ≡ true
      → create_dm i key r w ≡ created_by_other (b.rooms.find_one (is_dm_of key) w.rooms) w
  unfolding create_dm
  create_dm_blocked i j key r e w stored clash =
      ground (arith, b.rooms.create-clash i j r e w.rooms stored clash)

  -- A request that finds no DM and succeeds has stored one.
  created_dm :
      (j v u : ℕ) (spelled : ℕ × ℕ → String) (w : World) (x : DmResponse)
      → b.rooms.find_one (is_dm_of (build_dm_key v u)) w.rooms ≡ none
      → (find_or_create_dm j spelled v u w).0 ≡ ok x
      → find_room j (find_or_create_dm j spelled v u w).1
        ≡ some (dm_room j (spelled (build_dm_key v u)) v u w.now)
  unfolding find_or_create_dm existing_or_new create_dm created_by_other
  created_dm j v u spelled w x fresh h =
      let r : Room = dm_room j (spelled (build_dm_key v u)) v u w.now in
      elim (Option-cases (b.rooms.create j r w.rooms)) [
        | inl e ↦ absurd (ground (arith, e))
        | inr (s, e) ↦ ground (arith, e, ==_refl j, b.rooms.find_by_id-create j j r w.rooms s e)
      ]

  answer_found :
      (key : ℕ × ℕ) (q : Room) (w : World)
      → created_by_other (some q) w ≡ (ok (to_dm_response q), w)
  unfolding created_by_other
  answer_found key q w = refl

  -- Two users open their DM at a time: the request of the one has found none, and before it creates one,
  -- the request of the other runs and succeeds. Whenever the first goes on, it creates nothing and
  -- returns a stored DM of the two.
  pub create_dm-find_or_create_dm :
      (i j u v later : ℕ) (spelled : ℕ × ℕ → String) (w : World) (x : DmResponse)
      → b.rooms.find_one (is_dm_of (build_dm_key u v)) w.rooms ≡ none
      → (find_or_create_dm j spelled v u w).0 ≡ ok x
      → (q : Room) × IsStored q (build_dm_key u v) (find_or_create_dm j spelled v u w).1
        × (create_dm i
              (build_dm_key u v)
              (dm_room i (spelled (build_dm_key u v)) u v later)
              (find_or_create_dm j spelled v u w).1
            ≡ (ok (to_dm_response q), (find_or_create_dm j spelled v u w).1))
  create_dm-find_or_create_dm i j u v later spelled w x fresh h =
      let key : ℕ × ℕ = build_dm_key u v in
      let w' : World = (find_or_create_dm j spelled v u w).1 in
      let mine : Room = dm_room i (spelled key) u v later in
      let theirs : Room = dm_room j (spelled (build_dm_key v u)) v u w.now in
      let stored : find_room j w' ≡ some theirs =
        created_dm j v u spelled w x (rw (build_dm_key_comm v u) fresh) h in
      let (q, opened) = stored-IsOpen j key theirs w' stored (ground arith) in
      (
        q,
        found-IsStored key w' q opened,
        create_dm_blocked i j key mine theirs w' stored (ground arith)
            ∙ ap (λ o. created_by_other o w') opened
            ∙ answer_found key q w',
      )

  -- While any room, of whatever kind, has the key of two users as its name, and they have no DM, neither
  -- can open one: for users who exist, the request fails with MongoDB's error and changes nothing.
  pub find_or_create_dm-name_taken :
      (i j u v : ℕ) (spelled : ℕ × ℕ → String) (w : World) (g : Room)
      → find_room j w ≡ some g
      → str_eq (spelled (build_dm_key u v)) g.name ≡ true
      → b.rooms.find_one (is_dm_of (build_dm_key u v)) w.rooms ≡ none
      → (u == v) ≡ false
      → is_some (find_user v w) ≡ true
      → find_or_create_dm i spelled u v w ≡ (err duplicate_key, w)
  unfolding find_or_create_dm existing_or_new created_by_other
  find_or_create_dm-name_taken i j u v spelled w g stored taken fresh ne known =
      let key : ℕ × ℕ = build_dm_key u v in
      let mine : Room = dm_room i (spelled key) u v w.now in
      let blocked = create_dm_blocked i j key mine g w stored (ground arith) in
      ground (arith, blocked)
