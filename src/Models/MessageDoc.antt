-- ===== src/Models/MessageDoc.antt =====
-- models/Message.js. Contents and emojis are lists of UTF-16 code units.
use node_chat_api.Prelude.{ℕ, String, Option, List}

pub data MessageType : Type 0 where
  text system : MessageType

-- `Map<emoji, userId[]>`, in order of insertion.
abbrev pub Reactions : Type 0
Reactions = List (List ℕ × List ℕ)

pub record Message : Type 0 where
  pub id : ℕ
  pub room_id : ℕ
  pub sender_id : ℕ
  pub sender_username : String
  pub content : List ℕ
  pub type : MessageType
  pub edited_at : Option ℕ
  pub deleted_at : Option ℕ
  pub reactions : Reactions
  pub created_at : ℕ
