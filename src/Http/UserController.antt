-- ===== src/Http/UserController.antt =====
-- controllers/userController.js, and dmController.js, whose first handler tests a name that is not
-- declared.
use node_chat_api.Prelude.{ℕ, String, Option, List}
use node_chat_api.Errors.{reference_error}
use node_chat_api.Action.{Action, pure, throw, ◌>>=◌}
use node_chat_api.World.{Backend, World}
use node_chat_api.Users
use node_chat_api.Users.{OwnProfile, PublicProfile}
use node_chat_api.Unread
use node_chat_api.Models.{Room}
use node_chat_api.Dm
use node_chat_api.Dm.{DmResponse}
use node_chat_api.Http.{Reply, reply_success}

module _ ⦃b : Backend⦄ where
  unfoldable pub get_me : ℕ → Action World (Reply OwnProfile)
  get_me user_id = do user ← Users.get_my_profile user_id; pure (reply_success user)

  unfoldable pub update_me : ℕ → Option String → Option String → Action World (Reply OwnProfile)
  update_me user_id display_name avatar_url = do
    user ← Users.update_my_profile user_id display_name avatar_url
    pure (reply_success user)

  unfoldable pub get_user_by_id : ℕ → Action World (Reply PublicProfile)
  get_user_by_id user_id = do user ← Users.get_user_by_id user_id; pure (reply_success user)

  pub get_unread_counts : ℕ → Action World (Reply (List (ℕ × ℕ)))
  get_unread_counts user_id = do
    counts ← Unread.get_unread_counts user_id
    pure (reply_success counts)

  -- `findOrCreateDm`
  pub open_dm : ℕ → Option ℕ → Action World (Reply DmResponse)
  open_dm user_id target_id = throw (reference_error "targetUserId")

  pub list_dms : (List Room → List Room) → ℕ → Action World (Reply (List DmResponse))
  list_dms sorted user_id = do dms ← Dm.list_dms sorted user_id; pure (reply_success dms)
