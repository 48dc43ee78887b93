-- ===== src/Rooms/Roster.antt =====
-- `listMembers` of services/roomService.js: the members with the names that `populate` finds.
use node_chat_api.Prelude.{ℕ, String, List, [], ◌∷◌}
use node_chat_api.Errors.{type_error}
use node_chat_api.Action.{Action, pure, gets, or_throw, ◌>>=◌}
use node_chat_api.Models.{Member, Role}
use node_chat_api.World.{Backend, World, find_user}
use node_chat_api.Rooms.{load_room}

pub record MemberResponse : Type 0 where
  pub user_id : ℕ
  pub username : String
  pub role : Role
  pub joined_at : ℕ

module _ ⦃b : Backend⦄ where
  -- The user of an entry is null when the account is gone; reading its `_id` throws.
  unfoldable pub named : List Member → Action World (List MemberResponse)
  named [] = pure []
  named (m ∷ ms) = do
    found ← gets (find_user m.user_id)
    user ← or_throw found type_error
    rest ← named ms
    pure (
        (record {
          user_id = user.id;
          username = user.username;
          role = m.role;
          joined_at = m.joined_at;
        })
        ∷ rest)

  unfoldable pub list_members : ℕ → Action World (List MemberResponse)
  unfolding named
  list_members room_id = do room ← load_room room_id; named room.members
