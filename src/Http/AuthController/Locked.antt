-- ===== src/Http/AuthController/Locked.antt =====
-- What a login over HTTP is answered while the account is locked.
use text.Mathlib.Text.{◌==◌ as str_eq}
use node_chat_api.Prelude.{ℕ, ◌+◌}
use node_chat_api.Text.{Text}
use node_chat_api.World.{Backend, World}
use node_chat_api.Auth

module _ ⦃b : Backend⦄ where
  abbrev pub later : ℕ → World → World
  later ms w = record w { now = w.now + ms }
