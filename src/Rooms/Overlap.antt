-- ===== src/Rooms/Overlap.antt =====
-- Requests that change the members of a room, or delete it, and overlap: each loads the room, waits,
-- and goes on with what it has loaded. `save` writes `members` whole, unless Mongoose finds that the
-- document has been saved or deleted meanwhile, and throws.
pub mod Lost
use node_chat_api.Prelude.{
  ℕ, ◌≡◌, some, none, true, false, List, [], ◌∷◌, ◌++◌, arith, Option, not, ◌==◌,
}
use node_chat_api.Models.{Room, Member, is_owner}
use node_chat_api.Action.{ok}
use node_chat_api.World.{Backend, World, find_room}
use node_chat_api.Members.{has_member, find_member, without_member, push_member}
use node_chat_api.Rooms.{to_room_response, leave_loaded, kick_loaded, delete_loaded, join_room}
use node_chat_api.Rooms.Calls.{Call, step}
use node_chat_api.Rooms.Invariant.{
  IsValid, IsValidRoom, ValidAt, step-IsValid, kick_loaded-ValidAt, leave_loaded-ValidAt,
  delete_loaded-ValidAt,
}

pub data Pending : Type 0 where
  leaving : ℕ → Pending
  kicking : ℕ → ℕ → Pending
  deleting : ℕ → Pending

-- A request, the room's id, and the document that it has loaded.
abbrev pub Paused : Type 0
Paused = Pending × ℕ × Room

module _ ⦃b : Backend⦄ where
  -- What a request that has loaded its room does to the state.
  abbrev pub resume : Paused → World → World
  resume (leaving u, i, r) w = (leave_loaded i u r w).1
  resume (kicking actor target, i, r) w = (kick_loaded i actor target r w).1
  resume (deleting u, i, r) w = (delete_loaded i u r w).1

  -- The list has the requests that are paused. The other calls, changes of a role among them, run to
  -- their ends at once.
  pub data Overlapped (w0 : World) : List Paused → World → Type 0 where
    starts : Overlapped w0 [] w0
    calls :
        {ps : List Paused} {w : World} (c : Call) → Overlapped w0 ps w → Overlapped w0 ps (step c w)
    loads :
        {ps : List Paused} {w : World} (q : Pending) (i : ℕ) (r : Room)
        → find_room i w ≡ some r
        → Overlapped w0 ps w
        → Overlapped w0 ((q, i, r) ∷ ps) w
    resumes :
        {w : World} (ps qs : List Paused) (q : Paused)
        → Overlapped w0 (ps ++ q ∷ qs) w
        → Overlapped w0 (ps ++ qs) (resume q w)
    fails :
        {w : World} (ps qs : List Paused) (q : Paused)
        → Overlapped w0 (ps ++ q ∷ qs) w
        → Overlapped w0 (ps ++ qs) w

  abbrev AllLoadedValid : List Paused → Type 0
  AllLoadedValid [] = Unit
  AllLoadedValid ((q, i, r) ∷ ps) = IsValidRoom r × AllLoadedValid ps

  one_of :
      (ps qs : List Paused) (q : Paused)
      → AllLoadedValid (ps ++ q ∷ qs)
      → IsValidRoom q.2 × AllLoadedValid (ps ++ qs)
  one_of [] qs (q, i, r) (v, vs) = (v, vs)
  one_of ((p, j, s) ∷ ps) qs q (v, vs) =
      let (here, others) = one_of ps qs q vs in (here, (v, others))

  resume-IsValid : (q : Paused) (w : World) → IsValid w → IsValidRoom q.2 → IsValid (resume q w)
  resume-IsValid (leaving u, i, r) w h v j = leave_loaded-ValidAt i u j r w h v
  resume-IsValid (kicking a t, i, r) w h v j = kick_loaded-ValidAt i a t j r w h v
  resume-IsValid (deleting u, i, r) w h v j = delete_loaded-ValidAt i u j r w h

  loaded_valid : (i : ℕ) (r : Room) (w : World) → find_room i w ≡ some r → IsValid w → IsValidRoom r
  loaded_valid i r w e h = ground (arith, h i)

  Overlapped-keeps :
      (w0 : World)
      → IsValid w0
      → (ps : List Paused) (w : World) → Overlapped w0 ps w
      → IsValid w × AllLoadedValid ps
  Overlapped-keeps w0 h ps w starts = (h, tt)
  Overlapped-keeps w0 h ps w (calls {w = v} c run) =
      let (valid, all) = Overlapped-keeps w0 h _ v run in (step-IsValid c v valid, all)
  Overlapped-keeps w0 h ps w (loads q i r e run) =
      let (valid, all) = Overlapped-keeps w0 h _ w run in (valid, (loaded_valid i r w e valid, all))
  Overlapped-keeps w0 h ps w (resumes {w = v} ps' qs q run) =
      let (valid, all) = Overlapped-keeps w0 h _ v run in
      let (here, others) = one_of ps' qs q all in (resume-IsValid q v valid here, others)
  Overlapped-keeps w0 h ps w (fails ps' qs q run) =
      let (valid, all) = Overlapped-keeps w0 h _ w run in (valid, (one_of ps' qs q all).1)

  -- Requests to leave a room, to kick from it and to delete it may overlap with one another and with the
  -- other calls of the room service, each loading its room at one time and going on, or failing, at any
  -- later one. From a state in which every room lists nobody twice, every group has exactly one owner
  -- and every DM none, they lead to such a state.
  pub Overlapped-IsValid :
      (w0 w : World) (ps : List Paused) → IsValid w0 → Overlapped w0 ps w → IsValid w
  Overlapped-IsValid w0 w ps h run = (Overlapped-keeps w0 h ps w run).0
