-- ===== src/Rooms/Calls.antt =====
-- Sequences of calls of the room service, with time passing between them.
use node_chat_api.Prelude.{ℕ, ◌+◌, String, Option, List, [], ◌∷◌, Bool}
use node_chat_api.World.{Backend, World}
use node_chat_api.Rooms.{
  create_room, get_room_by_id, join_room, leave_room, create_invite, join_via_invite, kick_member,
  set_member_role, delete_room,
}

pub data Call : Type 0 where
  create : ℕ → ℕ → String → Option String → Option Bool → Call
  get : ℕ → Call
  join : ℕ → ℕ → Call
  leave : ℕ → ℕ → Call
  invite : ℕ → ℕ → ℕ → Call
  redeem : Option ℕ → ℕ → Call
  kick : ℕ → ℕ → ℕ → Call
  set_role : ℕ → ℕ → ℕ → String → Call
  delete : ℕ → ℕ → Call
  tick : ℕ → Call

module _ ⦃b : Backend⦄ where
  -- The state after a call, whether it returned or threw.
  unfoldable pub step : Call → World → World
  step (create i u name description p) w = (create_room i u name description p w).1
  step (get i) w = (get_room_by_id i w).1
  step (join i u) w = (join_room i u w).1
  step (leave i u) w = (leave_room i u w).1
  step (invite token i u) w = (create_invite token i u w).1
  step (redeem token u) w = (join_via_invite token u w).1
  step (kick i actor target) w = (kick_member i actor target w).1
  step (set_role i actor target role) w = (set_member_role i actor target role w).1
  step (delete i u) w = (delete_room i u w).1
  step (tick ms) w = record w { now = w.now + ms }

  unfoldable pub run_calls : List Call → World → World
  run_calls [] w = w
  run_calls (c ∷ cs) w = run_calls cs (step c w)

  pub run_calls_induction :
      (P : World → Type 0)
      → ((c : Call) (w : World) → P w → P (step c w))
      → (cs : List Call) (w : World) → P w
      → P (run_calls cs w)
  unfolding run_calls
  run_calls_induction P keep [] w h = h
  run_calls_induction P keep (c ∷ cs) w h = run_calls_induction P keep cs (step c w) (keep c w h)
