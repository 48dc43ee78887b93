-- ===== src/Http/UsersRouter/Confined.antt =====
-- The router of the users, beside the rooms, the messages and the presence.
use node_chat_api.Prelude.{ℕ, arith, refl, String, Option}
use node_chat_api.World.{Backend}
use node_chat_api.Action.Keeps.{Keeps}
use node_chat_api.Auth.Confined.{chats}
use node_chat_api.Middleware.{Header, malformed, refused, bearer, authenticate}
use node_chat_api.Users
use node_chat_api.Http.UserController
use node_chat_api.Http.UsersRouter.{
  UserRequest, get_me_unread, get_me, put_me, get_user, user_handler, users_router,
}

module _ ⦃b : Backend⦄ where
  update-Keeps :
      (u : ℕ) (name url : Option String) → Keeps chats (Users.update_my_profile u name url)
  unfolding Users.update_my_profile
  update-Keeps u name url = record { kept = λ w. ground arith }

  pub users_router-Keeps : (header : Header) (q : UserRequest) → Keeps chats (users_router header q)
  unfolding users_router user_handler authenticate UserController.get_me UserController.update_me
      UserController.get_user_by_id Users.get_my_profile Users.get_user_by_id
  users_router-Keeps malformed q = record { kept = λ w. refl }
  users_router-Keeps refused q = record { kept = λ w. refl }
  users_router-Keeps (bearer c) get_me_unread = record { kept = λ w. refl }
  users_router-Keeps (bearer c) get_me = record { kept = λ w. ground arith }
  users_router-Keeps (bearer c) (put_me name url) = record {
    kept = λ w. ground (arith, (update-Keeps c.sub name url).kept w);
  }
  users_router-Keeps (bearer c) (get_user u) = record { kept = λ w. ground arith }
