-- ===== src/Http/UsersRouter.antt =====
-- routes/users.js and routes/dm.js, each as one function from a request. Ids in the path are ObjectIds.
-- Of the reply, only the status is kept.
pub mod Confined
use node_chat_api.Prelude.{ℕ, String, Option, List}
use node_chat_api.Action.{Action, pure, ◌>>=◌, ◌>>◌}
use node_chat_api.Models.{Room}
use node_chat_api.World.{Backend, World}
use node_chat_api.Middleware.{Caller, Header, authenticate, require_verified}
use node_chat_api.Http.{Reply}
use node_chat_api.Http.App.{route_not_found}
use node_chat_api.Http.UserController

pub data UserRequest : Type 0 where
  get_me_unread : UserRequest
  get_me : UserRequest
  put_me : Option String → Option String → UserRequest
  get_user : ℕ → UserRequest

pub data DmRequest : Type 0 where
  post_dm : Option ℕ → DmRequest
  get_dms : DmRequest

module _ ⦃b : Backend⦄ where
  abbrev status_of : {A : Type 0} → Action World (Reply A) → Action World ℕ
  status_of m = do reply ← m; pure reply.status

  -- The path 'me/unread' has no leading slash, so that no request matches it, and '/:id' takes one
  -- segment: the request goes on to the answer for unknown routes.
  user_handler : UserRequest → Caller → Action World ℕ
  user_handler get_me_unread c = status_of (pure (route_not_found {A = Unit}))
  user_handler get_me c = status_of (UserController.get_me c.sub)
  user_handler (put_me display_name avatar_url) c =
      status_of (UserController.update_me c.sub display_name avatar_url)
  user_handler (get_user user_id) c = status_of (UserController.get_user_by_id user_id)

  unfoldable pub users_router : Header → UserRequest → Action World ℕ
  unfolding user_handler authenticate route_not_found
  users_router header q = do caller ← authenticate header; user_handler q caller

  dm_handler : (List Room → List Room) → DmRequest → Caller → Action World ℕ
  dm_handler sorted (post_dm target_id) c = status_of (UserController.open_dm c.sub target_id)
  dm_handler sorted get_dms c = status_of (UserController.list_dms sorted c.sub)

  -- `dmRouter`, which app.js does not mount.
  pub dm_router : (List Room → List Room) → Header → DmRequest → Action World ℕ
  unfolding dm_handler
  dm_router sorted header q = do
    caller ← authenticate header
    require_verified caller
    dm_handler sorted q caller
