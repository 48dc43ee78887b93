-- ===== src/Auth/Reset/Confined.antt =====
-- A password reset, beside the rooms, the messages and the presence.
use node_chat_api.Prelude.{ℕ, Option, none, some, arith, refl}
use node_chat_api.Text.{Text}
use node_chat_api.World.{Backend, World}
use node_chat_api.Action.Keeps.{Keeps}
use node_chat_api.Auth.Confined.{chats}
use node_chat_api.Auth.Reset.{reset_password, invalidate_all_refresh_tokens, del_scanned}

module _ ⦃b : Backend⦄ where
  cleared-Keeps : (fuel user_id : ℕ) → Keeps chats (invalidate_all_refresh_tokens fuel user_id)
  unfolding invalidate_all_refresh_tokens del_scanned
  cleared-Keeps fuel user_id = record { kept = λ w. ground arith }

  pub reset_password-Keeps :
      (fuel salt : ℕ) (t : Option ℕ) (p : Text) → Keeps chats (reset_password fuel salt t p)
  unfolding reset_password
  reset_password-Keeps fuel salt none p = record { kept = λ w. refl }
  reset_password-Keeps fuel salt (some t) p = record {
    kept = λ w. ground (arith, λ (u : ℕ) (v : World). (cleared-Keeps fuel u).kept v);
  }
