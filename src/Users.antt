-- ===== src/Users.antt =====
-- services/userService.js
use node_chat_api.Prelude.{ℕ, String, Option, none, some, true, not, ◌&&◌, is_some}
use node_chat_api.Errors.{not_found, invalid}
use node_chat_api.Action.{Action, pure, gets, or_throw, throw_if, ◌>>=◌, ◌>>◌}
use node_chat_api.Models.{User}
use node_chat_api.World.{Backend, World, find_user, update_user}

pub record OwnProfile : Type 0 where
  pub id : ℕ
  pub username : String
  pub email : String
  pub display_name : Option String
  pub avatar_url : Option String
  pub created_at : ℕ

pub record PublicProfile : Type 0 where
  pub id : ℕ
  pub username : String
  pub display_name : Option String
  pub avatar_url : Option String
  pub created_at : ℕ

abbrev pub to_own_profile : User → OwnProfile
to_own_profile u = record {
  id = u.id;
  username = u.username;
  email = u.email;
  display_name = u.display_name;
  avatar_url = u.avatar_url;
  created_at = u.created_at;
}

abbrev pub to_public_profile : User → PublicProfile
to_public_profile u = record {
  id = u.id;
  username = u.username;
  display_name = u.display_name;
  avatar_url = u.avatar_url;
  created_at = u.created_at;
}

-- `$set: updates`, where a field that is null or undefined is left out.
abbrev pub apply_updates : Option String → Option String → User → User
apply_updates display_name avatar_url u = record u {
  display_name = elim display_name [ none ↦ u.display_name | some d ↦ some d ];
  avatar_url = elim avatar_url [ none ↦ u.avatar_url | some a ↦ some a ];
}

module _ ⦃b : Backend⦄ where
  unfoldable pub get_my_profile : ℕ → Action World OwnProfile
  get_my_profile user_id = do
    found ← gets (find_user user_id)
    user ← or_throw found (not_found "User not found." "USER_NOT_FOUND")
    pure (to_own_profile user)

  unfoldable pub update_my_profile : ℕ → Option String → Option String → Action World OwnProfile
  update_my_profile user_id display_name avatar_url = do
    throw_if (not (is_some display_name) && not (is_some avatar_url))
        (invalid "No updatable fields provided.")
    updated ← update_user user_id (λ _. true) (apply_updates display_name avatar_url)
    user ← or_throw updated (not_found "User not found." "USER_NOT_FOUND")
    pure (to_own_profile user)

  unfoldable pub get_user_by_id : ℕ → Action World PublicProfile
  get_user_by_id user_id = do
    found ← gets (find_user user_id)
    user ← or_throw found (not_found "User not found." "USER_NOT_FOUND")
    pure (to_public_profile user)
