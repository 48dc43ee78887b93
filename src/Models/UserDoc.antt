-- ===== src/Models/UserDoc.antt =====
-- models/User.js
use node_chat_api.Prelude.{ℕ, String, Option, Bool}

pub record User : Type 0 where
  pub id : ℕ
  pub username : String
  pub email : String
  pub password_hash : String
  pub display_name : Option String
  pub avatar_url : Option String
  pub verified : Bool
  pub created_at : ℕ
