-- ===== src/Presence/Eviction.antt =====
-- The job that removes stale users changes nothing that is shown afterwards.
use node_chat_api.Prelude.{
  ℕ, ◌<◌, ◌≡◌, Option, none, List, [], ◌∷◌, Bool, true, false, filter, arith, refl, ap, ◌∙◌,
  if◌then◌else◌, ◌||◌, Bool-cases, inl, inr,
}
use node_chat_api.Backend.{
  online_users, presence, ZMember, user, stamp, member_eq, ZSet, is_live, live_zset, kept, newer,
  score_in,
}
use node_chat_api.Action.{ok}
use node_chat_api.World.{Backend, World}
use node_chat_api.Presence.{
  is_fresh, is_online, found_set, user_ids, get_room_presence, evict_stale_users,
}

abbrev pub holds : ZMember → List (ZMember × ℕ) → Bool
holds m [] = false
holds m (x ∷ xs) = member_eq x.0 m || holds m xs

-- No member stands twice.
abbrev pub IsDistinct : List (ZMember × ℕ) → Type 0
IsDistinct [] = Unit
IsDistinct (x ∷ xs) = (holds x.0 xs ≡ false) × IsDistinct xs

member_eq_lem : (m k : ZMember) → member_eq m k ≡ true → m ≡ k
member_eq_lem (user u) (user v) h = ground arith
member_eq_lem (stamp t r) (stamp u s) h = ground arith
member_eq_lem (user u) (stamp t r) h = cc
member_eq_lem (stamp t r) (user u) h = cc

score_in_absent :
    (now : ℕ) (m : ZMember) (xs : List (ZMember × ℕ))
    → holds m xs ≡ false
    → score_in m (newer now 300000 xs) ≡ none
score_in_absent now m [] h = refl
score_in_absent now m (x ∷ xs) h = ground (arith, score_in_absent now m xs)

is_fresh-newer :
    (now later : ℕ) (m : ZMember) (xs : List (ZMember × ℕ))
    → IsDistinct xs
    → now < later
    → is_fresh later (score_in m (newer now 300000 xs)) ≡ is_fresh later (score_in m xs)
is_fresh-newer now later m [] d h = refl
is_fresh-newer now later m (x ∷ xs) d h =
    ground
      (arith, is_fresh-newer now later m xs d.1 h, member_eq_lem x.0 m, score_in_absent now m xs)

is_fresh-kept :
    (later : ℕ) (m : ZMember) (xs : List (ZMember × ℕ)) (e : Option ℕ)
    → is_fresh later (score_in m (live_zset later (kept xs e)).items)
      ≡ (if is_live later e then is_fresh later (score_in m xs) else false)
is_fresh-kept later m [] e = ground arith
is_fresh-kept later m (x ∷ xs) e = ground arith

newer-live :
    (now later : ℕ) (m : ZMember) (z : ZSet)
    → IsDistinct z.items
    → now < later
    → is_fresh later (
        score_in m
          (live_zset later
            (kept (newer now 300000 (live_zset now z).items) (live_zset now z).expires)).items)
      ≡ is_fresh later (score_in m (live_zset later z).items)
newer-live now later m z d h = elim (Bool-cases (is_live now z.expires)) [
  | inl alive ↦ ground (
    arith,
    is_fresh-kept later m (newer now 300000 z.items) z.expires,
    is_fresh-newer now later m z.items d h,
  )
  | inr dead ↦ ground arith
]

filter_congr : (p q : ℕ → Bool) (us : List ℕ) → ((u : ℕ) → p u ≡ q u) → filter p us ≡ filter q us
filter_congr p q [] h = refl
filter_congr p q (u ∷ us) h = ground (arith, h u, filter_congr p q us h)

module _ ⦃b : Backend⦄ where
  -- The members of a room who are shown as present at any time after a run of the eviction job are those
  -- who would have been shown without it. (The set `online:users` lists no user twice.)
  pub get_room_presence-evict_stale_users :
      (room_id later : ℕ) (w : World)
      → IsDistinct (b.sets.zset w.sets online_users).items
      → w.now < later
      → (get_room_presence room_id (record (evict_stale_users w).1 { now = later })).0
        ≡ (get_room_presence room_id (record w { now = later })).0
  unfolding get_room_presence evict_stale_users
  get_room_presence-evict_stale_users room_id later w d h =
      let cleaned : World = record (evict_stale_users w).1 { now = later } in
      let before : World = record w { now = later } in
      let same : b.sets.zset cleaned.sets (presence room_id)
          ≡ b.sets.zset w.sets (presence room_id) =
        ground (
          arith,
          b.sets.zset-zremrangebyscore w.now 300000 online_users (presence room_id) w.sets,
        ) in
      ap (λ (z : ZSet). ok (filter (λ u. is_online u cleaned) (user_ids (live_zset later z).items)))
        same
      ∙ ap (λ (us : List ℕ). ok us)
          (filter_congr (λ u. is_online u cleaned) (λ u. is_online u before)
            (user_ids (found_set (presence room_id) before).items)
            (λ u. ground (
              arith,
              b.sets.zset-zremrangebyscore w.now 300000 online_users online_users w.sets,
              newer-live w.now later (user u) (b.sets.zset w.sets online_users) d h,
            )))
