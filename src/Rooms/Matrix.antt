-- ===== src/Rooms/Matrix.antt =====
-- The abstract view of the rooms: which role each user has in each room.
pub mod Moves
pub mod Changes
pub mod Leaving
pub mod Refinement
use node_chat_api.Prelude.{
  ℕ, ◌≡◌, refl, Option, none, some, List, [], ◌∷◌, Bool, true, false, not, ◌&&◌, ◌||◌, any, find?,
  is_some, arith, ◌==◌, ==_refl, if◌then◌else◌,
}
use node_chat_api.Models.{Room, Member, Role, owner, member}
use node_chat_api.World.{Backend, World, find_room}
use node_chat_api.Members.{
  find_member, has_member, push_member, without_member, assign_role, set_role_first,
}
use node_chat_api.Rooms.Roles.{IsDistinct}

abbrev pub entry_role : Option Member → Option Role
entry_role none = none
entry_role (some m) = some m.role

abbrev pub role_at : ℕ → List Member → Option Role
role_at u ms = entry_role (find_member u ms)

-- None in a room that is not there.
abbrev pub role_in : ℕ → Option Room → Option Role
role_in u none = none
role_in u (some r) = role_at u r.members

-- A room and a user.
abbrev pub Matrix : Type 0
Matrix = ℕ → ℕ → Option Role

abbrev pub matrix : ⦃b : Backend⦄ → World → Matrix
matrix w j v = role_in v (find_room j w)

pub has_member-role_at : (u : ℕ) (ms : List Member) → has_member u ms ≡ is_some (role_at u ms)
has_member-role_at u [] = refl
has_member-role_at u (m ∷ ms) = ground (arith, has_member-role_at u ms)

pub role_at-push_member :
    (v u now : ℕ) (ms : List Member)
    → role_at v (push_member u now ms)
      ≡ (if is_some (role_at v ms) then role_at v ms else if u == v then some member else none)
role_at-push_member v u now [] = ground arith
role_at-push_member v u now (m ∷ ms) = ground (arith, role_at-push_member v u now ms)

pub role_at-without_member :
    (v u : ℕ) (ms : List Member)
    → role_at v (without_member u ms) ≡ (if u == v then none else role_at v ms)
role_at-without_member v u [] = ground arith
role_at-without_member v u (m ∷ ms) = ground (arith, role_at-without_member v u ms)

pub role_at-assign_role :
    (v t : ℕ) (x : Role) (ms : List Member)
    → role_at v (assign_role t x ms)
      ≡ (if t == v && is_some (role_at v ms) then some x else role_at v ms)
role_at-assign_role v t x [] = ground arith
role_at-assign_role v t x (m ∷ ms) = ground (arith, role_at-assign_role v t x ms)

role_at_absent : (v : ℕ) (ms : List Member) → has_member v ms ≡ false → role_at v ms ≡ none
role_at_absent v [] h = refl
role_at_absent v (m ∷ ms) h = ground (arith, role_at_absent v ms)

pub find?-user_id :
    (p : Member → Bool) (ms : List Member) (k : Member)
    → find? p ms ≡ some k
    → has_member k.user_id ms ≡ true
find?-user_id p [] k h = cc
find?-user_id p (m ∷ ms) k h = ground (arith, find?-user_id p ms k, ==_refl k.user_id)

-- The first match of `p` has the new role, and nobody else.
pub role_at-set_role_first :
    (p : Member → Bool) (v : ℕ) (x : Role) (ms : List Member) (k : Member)
    → IsDistinct ms
    → find? p ms ≡ some k
    → role_at v (set_role_first p x ms) ≡ (if k.user_id == v then some x else role_at v ms)
role_at-set_role_first p v x [] k d h = cc
role_at-set_role_first p v x (m ∷ ms) k d h =
    ground (arith, role_at-set_role_first p v x ms k d.1, find?-user_id p ms k)

pub role_at_found :
    (p : Member → Bool) (ms : List Member) (k : Member)
    → IsDistinct ms
    → find? p ms ≡ some k
    → role_at k.user_id ms ≡ some k.role
role_at_found p [] k d h = cc
role_at_found p (m ∷ ms) k d h =
    ground (arith, role_at_found p ms k d.1, find?-user_id p ms k, ==_refl k.user_id)
