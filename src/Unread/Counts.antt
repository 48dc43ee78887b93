-- ===== src/Unread/Counts.antt =====
-- What a new message does to the unread counters of the room's members.
use node_chat_api.Prelude.{
  ℕ, ◌+◌, ◌≡◌, Option, some, List, [], ◌∷◌, false, not, ◌&&◌, any, arith, ◌==◌, refl, if◌then◌else◌,
}
use node_chat_api.Models.{Room, Member}
use node_chat_api.Backend.{Key, key_eq, Value, counted}
use node_chat_api.World.{Backend, World, find_room}
use node_chat_api.Members.{has_member}
use node_chat_api.Rooms.Roles.{IsDistinct}
use node_chat_api.Unread.{count_of, incr_all, others, increment_unread}

abbrev multiplicity : ℕ → List ℕ → ℕ
multiplicity v [] = 0
multiplicity v (u ∷ us) = (if u == v then 1 else 0) + multiplicity v us

multiplicity-others_absent :
    (v u : ℕ) (ms : List Member) → has_member v ms ≡ false → multiplicity v (others u ms) ≡ 0
multiplicity-others_absent v u [] h = refl
multiplicity-others_absent v u (m ∷ ms) h = ground (arith, multiplicity-others_absent v u ms)

multiplicity-others :
    (v u : ℕ) (ms : List Member)
    → IsDistinct ms
    → multiplicity v (others u ms) ≡ (if has_member v ms && not (v == u) then 1 else 0)
multiplicity-others v u [] d = refl
multiplicity-others v u (m ∷ ms) d =
    ground (arith, multiplicity-others v u ms d.1, multiplicity-others_absent v u ms)

counted_lem : (v : Option Value) → counted v ≡ count_of v + 1
counted_lem v = ground arith

module _ ⦃b : Backend⦄ where
  -- The counter of a user for a room, as the code reads it.
  abbrev pub unread_count : ℕ → ℕ → World → ℕ
  unread_count v i w = count_of (b.redis.get w.now (Key.unread v i) w.redis)

  count_incr :
      (now i v u : ℕ) (s : b.redis.State)
      → count_of (b.redis.get now (Key.unread v i) (b.redis.incr now (Key.unread u i) s).1)
        ≡ count_of (b.redis.get now (Key.unread v i) s) + (if u == v then 1 else 0)
  count_incr now i v u s =
      let s' : b.redis.State = (b.redis.incr now (Key.unread u i) s).1 in
      ground (
        arith,
        b.redis.get-entry now (Key.unread v i) s',
        b.redis.get-entry now (Key.unread v i) s,
        b.redis.entry-incr now (Key.unread u i) (Key.unread v i) s,
      )

  count_after :
      (now i v : ℕ) (us : List ℕ) (s : b.redis.State)
      → count_of (b.redis.get now (Key.unread v i) (incr_all now i us s))
        ≡ count_of (b.redis.get now (Key.unread v i) s) + multiplicity v us
  count_after now i v [] s = omega arith
  count_after now i v (u ∷ us) s = omega (
    arith,
    count_after now i v us (b.redis.incr now (Key.unread u i) s).1,
    count_incr now i v u s,
  )

  -- The other keys are left alone.
  others_after :
      (now i : ℕ) (k : Key) (us : List ℕ) (s : b.redis.State)
      → any (λ v. key_eq (Key.unread v i) k) us ≡ false
      → b.redis.entry (incr_all now i us s) k ≡ b.redis.entry s k
  others_after now i k [] s h = refl
  others_after now i k (u ∷ us) s h =
      let key : Key = Key.unread u i in
      ground
        (arith, others_after now i k us (b.redis.incr now key s).1, b.redis.entry-incr now key k s)

  -- A message in a room that lists no user twice raises by one the unread counter, as the code reads it,
  -- of each member besides the sender, members who are offline included, and nobody else's; every other
  -- key keeps its entry.
  pub increment_unread_lem :
      (i u : ℕ) (w : World) (r : Room)
      → find_room i w ≡ some r
      → IsDistinct r.members
      → ((v : ℕ)
          → unread_count v i (increment_unread i u w).1
            ≡ unread_count v i w + (if has_member v r.members && not (v == u) then 1 else 0))
        × ((k : Key)
            → any (λ v. key_eq (Key.unread v i) k) (others u r.members) ≡ false
            → b.redis.entry (increment_unread i u w).1.redis k ≡ b.redis.entry w.redis k)
  unfolding increment_unread
  increment_unread_lem i u w r e d = (
    (λ v. ground (
      arith,
      count_after w.now i v (others u r.members) w.redis,
      multiplicity-others v u r.members d,
    )),
    (λ k h. ground (arith, others_after w.now i k (others u r.members) w.redis h)),
  )
