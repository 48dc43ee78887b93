-- ===== src/Rooms/Matrix/Moves.antt =====
-- What each call of the room service is to do to the matrix of roles, by the roles in it.
use node_chat_api.Prelude.{
  ℕ, ◌≡◌, Option, none, some, Bool, true, false, not, ◌&&◌, ◌||◌, is_some, ◌==◌, if◌then◌else◌,
}
use node_chat_api.Action.{Result, ok, err}
use node_chat_api.Models.{Room, Role, owner, member, is_owner, is_admin}
use node_chat_api.Backend.{Key, Value, invite_json}
use node_chat_api.World.{Backend, World, find_room}
use node_chat_api.Rooms.{create_room, assignable}
use node_chat_api.Rooms.Calls.{Call, create, get, join, leave, invite, kick, set_role, delete, tick}
use node_chat_api.Rooms.Matrix.{Matrix}

abbrev pub is_owner_role : Option Role → Bool
is_owner_role none = false
is_owner_role (some x) = is_owner x

abbrev pub is_admin_role : Option Role → Bool
is_admin_role none = false
is_admin_role (some x) = is_admin x

-- By the roles of the actor and of the target.
abbrev pub may_kick : Option Role → Option Role → Bool
may_kick (some x) (some y) = not (is_owner y) && not (is_admin x && is_admin y)
may_kick _ _ = false

abbrev pub new_role : Option Role → Option Role → Option Role → Option Role
new_role (some r) (some x) (some y) =
    if is_owner y || (is_admin x && is_admin r) then some y else some r
new_role _ x y = y

abbrev pub is_open_room : Option Room → Bool
is_open_room none = false
is_open_room (some r) = not r.is_private

-- The stored value is an invite to the room.
abbrev pub invites_to : ℕ → Option Value → Bool
invites_to j (some (invite_json i created_by)) = i == j
invites_to j _ = false

abbrev pub succeeds : {A : Type 0} → Result A → Bool
succeeds (ok a) = true
succeeds (err e) = false

abbrev pub is_heir : Option ℕ → ℕ → Bool
is_heir none v = false
is_heir (some h) v = h == v

-- Whom an owner who leaves hands the room to: somebody else in it, an admin if there is one; nobody if
-- there is nobody else.
abbrev pub IsHeir : Option ℕ → ℕ → (ℕ → Option Role) → Type 0
IsHeir none u f = (v : ℕ) → (is_owner_role (f u) && not (u == v) && is_some (f v)) ≡ false
IsHeir (some h) u f =
    (is_owner_role (f u) ≡ true)
    × ((u == h) ≡ false)
    × (is_some (f h) ≡ true)
    × ((v : ℕ) → (is_admin_role (f v) && not (u == v) && not (is_admin_role (f h))) ≡ false)

module _ ⦃b : Backend⦄ where
  -- The value of an invite's token.
  abbrev pub token_value : Option ℕ → World → Option Value
  token_value none w = none
  token_value (some t) w = b.redis.get w.now (Key.invite t) w.redis

  -- What a call may make of the matrix `m` of the state `w`: the new entry for each room and user.
  unfoldable pub Moves : Call → World → Matrix → Matrix → Type 0
  Moves (create i u name description p) w m n =
      (j v : ℕ)
      → n j v ≡ (
          if i == j && succeeds (create_room i u name description p w).0
          then (if u == v then some owner else none)
          else m j v)
  Moves (get i) w m n = (j v : ℕ) → n j v ≡ m j v
  Moves (join i u) w m n =
      (j v : ℕ)
      → n j v ≡ (
          if i == j && u == v && is_open_room (find_room i w) && not (is_some (m i u))
          then some member
          else m j v)
  Moves (leave i u) w m n =
      (h : Option ℕ) × IsHeir h u (m i)
      × ((j v : ℕ)
          → n j v ≡ (
              if i == j
              then (if u == v then none else if is_heir h v then some owner else m j v)
              else m j v))
  Moves (invite token i u) w m n = (j v : ℕ) → n j v ≡ m j v
  Moves (Call.redeem token u) w m n =
      (j v : ℕ)
      → n j v ≡ (
          if invites_to j (token_value token w)
            && u == v
            && is_some (find_room j w)
            && not (is_some (m j u))
          then some member
          else m j v)
  Moves (kick i a t) w m n =
      (j v : ℕ) → n j v ≡ (if i == j && t == v && may_kick (m i a) (m i t) then none else m j v)
  Moves (set_role i a t role) w m n =
      (j v : ℕ)
      → n j v ≡ (if i == j && t == v then new_role (assignable role) (m i a) (m i t) else m j v)
  Moves (delete i u) w m n =
      (j v : ℕ) → n j v ≡ (if i == j && is_owner_role (m i u) then none else m j v)
  Moves (tick ms) w m n = (j v : ℕ) → n j v ≡ m j v
