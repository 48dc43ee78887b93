-- ===== src/Rooms/Matrix/Refinement.antt =====
-- The calls of the room service as moves of the matrix of roles.
use node_chat_api.Prelude.{ℕ, refl, List, [], ◌∷◌, arith}
use node_chat_api.World.{Backend, World}
use node_chat_api.Rooms.{get_room_by_id, from_cache, create_invite}
use node_chat_api.Rooms.Calls.{
  Call, create, get, join, leave, invite, kick, set_role, delete, tick, step,
}
use node_chat_api.Rooms.Invariant.{IsValid, step-IsValid}
use node_chat_api.Rooms.Matrix.{matrix}
use node_chat_api.Rooms.Matrix.Moves.{Moves}
use node_chat_api.Rooms.Matrix.Changes.{
  join_room-Moves, create_room-Moves, join_via_invite-Moves, kick_member-Moves,
  set_member_role-Moves, delete_room-Moves,
}
use node_chat_api.Rooms.Matrix.Leaving.{leave_room-Moves}

module _ ⦃b : Backend⦄ where
  -- Each call of the sequence, in the state in which it is made, makes a move.
  abbrev pub Follows : List Call → World → Type 0
  Follows [] w = Unit
  Follows (c ∷ cs) w = Moves c w (matrix w) (matrix (step c w)) × Follows cs (step c w)

  get_room_by_id-Moves :
      (i : ℕ) (w : World) → Moves (get i) w (matrix w) (matrix (get_room_by_id i w).1)
  unfolding Moves get_room_by_id from_cache
  get_room_by_id-Moves i w j v = ground arith

  create_invite-Moves :
      (t i u : ℕ) (w : World) → Moves (invite t i u) w (matrix w) (matrix (create_invite t i u w).1)
  unfolding Moves create_invite
  create_invite-Moves t i u w j v = ground arith

  tick-Moves : (ms : ℕ) (w : World) → Moves (tick ms) w (matrix w) (matrix (step (tick ms) w))
  unfolding Moves step
  tick-Moves ms w j v = refl

  step-Moves : (c : Call) (w : World) → IsValid w → Moves c w (matrix w) (matrix (step c w))
  unfolding step
  step-Moves (create i u name description p) w h = create_room-Moves i u name description p w
  step-Moves (get i) w h = get_room_by_id-Moves i w
  step-Moves (join i u) w h = join_room-Moves i u w
  step-Moves (leave i u) w h = leave_room-Moves i u w h
  step-Moves (invite token i u) w h = create_invite-Moves token i u w
  step-Moves (Call.redeem token u) w h = join_via_invite-Moves token u w
  step-Moves (kick i a t) w h = kick_member-Moves i a t w
  step-Moves (set_role i a t role) w h = set_member_role-Moves i a t role w
  step-Moves (delete i u) w h = delete_room-Moves i u w
  step-Moves (tick ms) w h = tick-Moves ms w

  -- Seen as the matrix of who has which role in which room, any sequence of calls of the room service,
  -- failing or not, made in a state in which no room lists anybody twice, each group has one owner and
  -- each DM none, makes at each call the move that `Moves` states for it. A new room has its owner only;
  -- a join adds a plain member to the public room it names, and an invite's redemption to the room of
  -- the invite, unless they are there; a kick removes the target exactly when actor and target are in
  -- the room, the target is not the owner and not both are admins; a change of role by somebody in the
  -- room gives "admin" or "member" to anybody in it but the owner, an admin giving no "admin"; an owner
  -- who leaves hands the room to an admin if there is one, else to any other member, and whoever leaves
  -- is gone; an owner's deletion removes everybody; reads, new invites and time change nothing.
  pub run_calls-Follows : (cs : List Call) (w : World) → IsValid w → Follows cs w
  run_calls-Follows [] w h = tt
  run_calls-Follows (c ∷ cs) w h =
      (step-Moves c w h, run_calls-Follows cs (step c w) (step-IsValid c w h))
