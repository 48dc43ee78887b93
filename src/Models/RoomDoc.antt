-- ===== src/Models/RoomDoc.antt =====
-- models/Room.js. Ids are ObjectIds, which the code compares, and orders by their hexadecimal
-- spelling of fixed length: a number each. Times are milliseconds.
use node_chat_api.Prelude.{ℕ, String, Option, List, Bool}

pub data Role : Type 0 where
  owner admin member : Role

abbrev pub role_rank : Role → ℕ
role_rank owner = 3
role_rank admin = 2
role_rank member = 1

abbrev pub is_owner : Role → Bool
is_owner owner = Bool.true
is_owner _ = Bool.false

abbrev pub is_admin : Role → Bool
is_admin admin = Bool.true
is_admin _ = Bool.false

pub record Member : Type 0 where
  pub user_id : ℕ
  pub role : Role
  pub joined_at : ℕ

pub data RoomType : Type 0 where
  group dm : RoomType

pub record Room : Type 0 where
  pub id : ℕ
  pub name : String
  pub description : Option String
  pub created_by : ℕ
  pub members : List Member
  pub is_private : Bool
  pub type : RoomType
  pub dm_key : Option (ℕ × ℕ)
  pub created_at : ℕ

-- What `toRoomResponse` shows of a room.
pub record RoomResponse : Type 0 where
  pub id : ℕ
  pub name : String
  pub description : Option String
  pub created_by : ℕ
  pub member_count : ℕ
  pub is_private : Bool
  pub type : RoomType
  pub created_at : ℕ
