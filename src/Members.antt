-- ===== src/Members.antt =====
-- The member array of a room, as roomService.js and the middleware read and change it.
use node_chat_api.Prelude.{
  ℕ, Option, none, some, List, [], ◌∷◌, ◌++◌, Bool, true, false, not, ◌&&◌, filter, find?, any,
  ◌==◌, if◌then◌else◌,
}
use node_chat_api.Models.{Member, Role, RoomType, owner, member, group, dm, is_owner, is_admin}

abbrev pub is_dm : RoomType → Bool
is_dm group = false
is_dm dm = true

-- `m.userId.toString() === userId`
abbrev pub is_user : ℕ → Member → Bool
is_user user_id m = m.user_id == user_id

abbrev pub find_member : ℕ → List Member → Option Member
find_member user_id ms = find? (is_user user_id) ms

-- `{members: {$elemMatch: {userId}}}` and `{'members.userId': userId}`
abbrev pub has_member : ℕ → List Member → Bool
has_member user_id ms = any (is_user user_id) ms

-- `$push: {members: {userId, role: 'member'}}`
abbrev pub push_member : ℕ → ℕ → List Member → List Member
push_member user_id now ms =
    ms ++ (record { user_id = user_id; role = member; joined_at = now }) ∷ []

-- `members.filter(m => m.userId.toString() !== userId)`
abbrev pub without_member : ℕ → List Member → List Member
without_member user_id ms = filter (λ m. not (m.user_id == user_id)) ms

-- An assignment `m.role = role` to the element that `find(p)` returned.
abbrev pub set_role_first : (Member → Bool) → Role → List Member → List Member
set_role_first p role [] = []
set_role_first p role (m ∷ ms) =
    if p m then record m { role = role } ∷ ms else m ∷ set_role_first p role ms

abbrev pub assign_role : ℕ → Role → List Member → List Member
assign_role target_id role ms = set_role_first (is_user target_id) role ms

abbrev pub is_other : ℕ → Member → Bool
is_other user_id m = not (m.user_id == user_id)

abbrev pub is_other_admin : ℕ → Member → Bool
is_other_admin user_id m = is_admin m.role && not (m.user_id == user_id)

-- The members after the heir of a leaving owner became owner: the first admin, else the first member,
-- among the others; none if there is no other.
abbrev pub with_heir : ℕ → List Member → Option (List Member)
with_heir user_id ms =
    if any (is_other_admin user_id) ms
    then some (set_role_first (is_other_admin user_id) owner ms)
    else if any (is_other user_id) ms
    then some (set_role_first (is_other user_id) owner ms)
    else none

-- `member && member.role === 'owner'`, for the member that `find` returns.
abbrev pub owner_entry : Option Member → Bool
owner_entry none = false
owner_entry (some m) = is_owner m.role

abbrev pub owns : ℕ → List Member → Bool
owns user_id ms = owner_entry (find_member user_id ms)
