-- ===== src/Rooms/Race.antt =====
-- Reads through the room cache that overlap with other calls: what a read stores may be out of date.
use node_chat_api.Prelude.{ℕ, ◌+◌, ◌≤◌, ◌≡◌, some, List, [], ◌∷◌, ◌++◌, arith}
use node_chat_api.Models.{Room}
use node_chat_api.Backend.{Key, room_json}
use node_chat_api.World.{Backend, World, find_room}
use node_chat_api.Rooms.{to_room_response, get_room_by_id, fill_cache, room_cache_ttl}
use node_chat_api.Rooms.Calls.{Call, step, run_calls}
use node_chat_api.Rooms.Clock.{step_clock}
use node_chat_api.Rooms.Coherence.{IsCoherent, IsCoherentAfter}
use node_chat_api.Rooms.Cache.{
  step-IsCoherentAfter, run_calls-IsCoherentAfter, coherent_after, IsCoherentAfter-mono,
  stored_response, get_room_by_id_after,
}

module _ ⦃b : Backend⦄ where
  -- The pairs are the reads that have found their room and have not yet stored its response: what each
  -- has found, and under which id. The other calls run to their ends at once.
  pub data Overlaps (w0 : World) : List (ℕ × Room) → World → Type 0 where
    starts : Overlaps w0 [] w0
    calls :
        {ps : List (ℕ × Room)} {w : World} (c : Call) → Overlaps w0 ps w → Overlaps w0 ps (step c w)
    finds :
        {ps : List (ℕ × Room)} {w : World} (i : ℕ) (r : Room)
        → find_room i w ≡ some r
        → Overlaps w0 ps w
        → Overlaps w0 ((i, r) ∷ ps) w
    fills :
        {w : World} (ps qs : List (ℕ × Room)) (i : ℕ) (r : Room)
        → Overlaps w0 (ps ++ (i, r) ∷ qs) w
        → Overlaps w0 (ps ++ qs) (fill_cache i r w).1

  fill_cache-IsCoherentAfter :
      (d i : ℕ) (r : Room) (w : World)
      → w.now + 300000 ≤ d
      → IsCoherentAfter d w
      → IsCoherentAfter d (fill_cache i r w).1
  fill_cache-IsCoherentAfter d i r w le h j = ground (
    arith,
    h j,
    b.redis.entry-set_ex w.now room_cache_ttl (Key.room i) (Key.room j)
        (room_json (to_room_response r)) w.redis,
  )

  -- What is out of date expires within five minutes.
  Overlaps-IsCoherentAfter :
      (w0 : World)
      → IsCoherent w0
      → (ps : List (ℕ × Room)) (w : World) → Overlaps w0 ps w
      → (d : ℕ) → w.now + 300000 ≤ d
      → IsCoherentAfter d w
  Overlaps-IsCoherentAfter w0 h ps w starts d le = coherent_after d w0 h
  Overlaps-IsCoherentAfter w0 h ps w (calls {w = v} c run) d le =
      step-IsCoherentAfter d c v
        (Overlaps-IsCoherentAfter w0 h _ v run d (omega (arith, le, step_clock c v)))
  Overlaps-IsCoherentAfter w0 h ps w (finds i r e run) d le =
      Overlaps-IsCoherentAfter w0 h _ w run d le
  Overlaps-IsCoherentAfter w0 h ps w (fills {w = v} qs rs i r run) d le =
      fill_cache-IsCoherentAfter d i r v le (Overlaps-IsCoherentAfter w0 h _ v run d le)

  -- Cached reads may overlap with the other calls of the room service, in any order: a read that has
  -- loaded its room may store the response after the room has changed. From a state whose cache agrees
  -- with the collection, once no read is under way, and 300 seconds later, after any further calls,
  -- `getRoomById` answers what the collection holds.
  pub get_room_by_id-Overlaps :
      (w0 w : World) (cs : List Call) (i : ℕ)
      → IsCoherent w0
      → Overlaps w0 [] w
      → w.now + 300000 ≤ (run_calls cs w).now
      → (get_room_by_id i (run_calls cs w)).0 ≡ stored_response (find_room i (run_calls cs w))
  get_room_by_id-Overlaps w0 w cs i h run late =
      let d : ℕ = w.now + 300000 in
      let w' : World = run_calls cs w in
      get_room_by_id_after i w' (
        IsCoherentAfter-mono d w'.now w' late (
          run_calls-IsCoherentAfter d cs w
            (Overlaps-IsCoherentAfter w0 h [] w run d (omega arith))))
