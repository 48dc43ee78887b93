-- ===== src/Messages.antt =====
-- services/messageService.js
mod ReactionMap
pub mod Editing
pub mod Toggle
pub mod Pages
pub mod Cursor
pub use ReactionMap.*
use Prim.Native.Nat.{min}
use node_chat_api.Prelude.{
  ℕ, ◌+◌, ◌-◌, ◌*◌, String, Option, none, some, List, [], ◌∷◌, Bool, true, false, not, ◌&&◌, ◌||◌,
  map, length, take, drop, is_some, leb, ltb, ◌==◌, if◌then◌else◌,
}
use node_chat_api.Text.{Text, trim, is_empty, count_points}
use node_chat_api.Errors.{Error, not_found, validation, invalid, coded, schema_error, duplicate_key}
use node_chat_api.Action.{
  Action, Result, ok, err, pure, throw, gets, or_throw, throw_if, ◌>>=◌, ◌>>◌,
}
use node_chat_api.Models.{Room, Message, MessageType, Reactions, text}
use node_chat_api.Backend.{matching}
use node_chat_api.World.{Backend, World, find_room, update_message, update_odd_path}
use node_chat_api.Members.{has_member}
use node_chat_api.Paginate.{Parsed, at_least_one, Pagination, Paginated, paginated_response}

abbrev pub default_limit : ℕ
default_limit = 50

abbrev pub max_limit : ℕ
max_limit = 100

-- 15 * 60 * 1000 ms
abbrev pub edit_window : ℕ
edit_window = 900000

-- "[deleted]"
abbrev pub deleted_text : Text
deleted_text = 91 ∷ 100 ∷ 101 ∷ 108 ∷ 101 ∷ 116 ∷ 101 ∷ 100 ∷ 93 ∷ []

pub record MessageResponse : Type 0 where
  pub id : ℕ
  pub room_id : ℕ
  pub sender_id : ℕ
  pub sender_username : String
  pub content : Text
  pub type : MessageType
  pub reactions : Reactions
  pub edited_at : Option ℕ
  pub deleted_at : Option ℕ
  pub created_at : ℕ

abbrev pub to_message_response : Message → MessageResponse
to_message_response m = record {
  id = m.id;
  room_id = m.room_id;
  sender_id = m.sender_id;
  sender_username = m.sender_username;
  content = if is_some m.deleted_at then deleted_text else m.content;
  type = m.type;
  reactions = m.reactions;
  edited_at = m.edited_at;
  deleted_at = m.deleted_at;
  created_at = m.created_at;
}

-- The query parameter `before`: absent or empty, no date, or a date.
pub data Before : Type 0 where
  absent : Before
  no_date : Before
  at : ℕ → Before

pub record History : Type 0 where
  pub items : List MessageResponse
  pub next_cursor : Option ℕ
  pub has_more : Bool

-- `items[items.length - 1].createdAt`
abbrev pub last_time : List Message → Option ℕ
last_time [] = none
last_time (m ∷ []) = some m.created_at
last_time (m ∷ k ∷ ms) = last_time (k ∷ ms)

-- The page cut out of `n + 1` documents.
abbrev pub page_of : ℕ → List Message → History
page_of n docs =
    let more : Bool = ltb n (length docs) in
    let items : List Message = (if more then take n docs else docs) in
    record {
      items = map to_message_response items;
      next_cursor = if more then last_time items else none;
      has_more = more;
    }

abbrev pub page_size : Parsed → ℕ
page_size limit = min (at_least_one limit default_limit) max_limit

-- The filter on `roomId` and `createdAt`.
abbrev pub in_history : ℕ → Before → Message → Bool
in_history room_id (at cursor) m = m.room_id == room_id && ltb m.created_at cursor
in_history room_id _ m = m.room_id == room_id

abbrev pub is_no_date : Before → Bool
is_no_date no_date = true
is_no_date _ = false

-- The filters of the updates.
abbrev pub is_editable : ℕ → ℕ → Message → Bool
is_editable now user_id m =
    m.sender_id == user_id && not (is_some m.deleted_at) && leb (now - edit_window) m.created_at

abbrev pub is_deletable : ℕ → Message → Bool
is_deletable user_id m = m.sender_id == user_id && not (is_some m.deleted_at)

module _ ⦃b : Backend⦄ where
  unfoldable pub get_message_history : ℕ → Before → Parsed → Action World History
  get_message_history room_id before limit = do
    let n = page_size limit
    found ← gets (find_room room_id)
    throw_if (not (is_some found)) (not_found "Room not found." "ROOM_NOT_FOUND")
    throw_if (is_no_date before) (invalid "before must be a valid ISO 8601 timestamp.")
    docs ← gets (λ w. take (n + 1) (b.messages.find_recent (in_history room_id before) w.messages))
    pure (page_of n docs)

  insert_message : ℕ → Message → Action World MessageResponse
  insert_message message_id message w = elim (b.messages.create message_id message w.messages) [
    | none ↦ (err duplicate_key, w)
    | some s ↦ (ok (to_message_response message), record w { messages = s })
  ]

  -- `message_id` is the id that the driver makes. The schema requires a content that is not empty.
  unfoldable pub create_message : ℕ → ℕ → ℕ → String → Text → Action World MessageResponse
  unfolding insert_message
  create_message message_id room_id sender_id sender_username content = do
    found ← gets (find_room room_id)
    throw_if (not (is_some (matching (λ r. has_member sender_id r.members) found)))
        (coded "NOT_MEMBER")
    now ← gets (λ w. w.now)
    throw_if (is_empty (trim content)) schema_error
    insert_message message_id (record {
      id = message_id;
      room_id = room_id;
      sender_id = sender_id;
      sender_username = sender_username;
      content = trim content;
      type = text;
      edited_at = none;
      deleted_at = none;
      reactions = [];
      created_at = now;
    })

  unfoldable pub edit_message : ℕ → ℕ → Text → Action World MessageResponse
  edit_message message_id user_id content = do
    now ← gets (λ w. w.now)
    updated ←
        update_message message_id (is_editable now user_id)
          (λ m. record m { content = trim content; edited_at = some now })
    message ← or_throw updated (coded "EDIT_NOT_ALLOWED")
    pure (to_message_response message)

  -- The ids of the message and of its room.
  unfoldable pub delete_message : ℕ → ℕ → Action World (ℕ × ℕ)
  delete_message message_id user_id = do
    now ← gets (λ w. w.now)
    updated ←
        update_message message_id (is_deletable user_id) (λ m. record m { deleted_at = some now })
    message ← or_throw updated (coded "DELETE_NOT_ALLOWED")
    pure (message.id, message.room_id)

  -- The first attempt: `$addToSet` where the user is not in the array under the emoji.
  abbrev pub add_reaction : ℕ → ℕ → Text → Action World (Option Message)
  add_reaction message_id user_id emoji =
      if is_key emoji
      then update_message message_id
          (λ m. not (is_some m.deleted_at) && not (contains user_id (reactors emoji m.reactions)))
          (λ m. record m { reactions = add_to_set emoji user_id m.reactions })
      else update_odd_path message_id true emoji user_id

  -- The second: `$pull`.
  abbrev pub pull_reaction : ℕ → ℕ → Text → Action World (Option Message)
  pull_reaction message_id user_id emoji =
      if is_key emoji
      then update_message message_id (λ m. not (is_some m.deleted_at))
          (λ m. record m { reactions = pull emoji user_id m.reactions })
      else update_odd_path message_id false emoji user_id

  unfoldable pub remove_reaction : ℕ → ℕ → Text → Option Message → Action World MessageResponse
  remove_reaction message_id user_id emoji (some added) = pure (to_message_response added)
  remove_reaction message_id user_id emoji none = do
    removed ← pull_reaction message_id user_id emoji
    message ← or_throw removed (not_found "Message not found." "MESSAGE_NOT_FOUND")
    pure (to_message_response message)

  -- The path of both updates is `reactions.${emoji}`.
  unfoldable pub toggle_reaction : ℕ → ℕ → Text → Action World MessageResponse
  unfolding remove_reaction
  toggle_reaction message_id user_id emoji = do
    let points = count_points emoji
    throw_if (points == 0 || ltb 4 points)
        (validation "Emoji must be 1–4 codepoints." "INVALID_EMOJI")
    added ← add_reaction message_id user_id emoji
    remove_reaction message_id user_id emoji added

  -- `engine` answers `{$text: {$search}}` on the documents of a filter, most relevant first.
  unfoldable pub search_messages :
      (Text → (Message → Bool) → b.messages.State → List Message)
      → ℕ
      → Text
      → Pagination
      → Action World (Paginated MessageResponse)
  search_messages engine room_id query p = do
    throw_if (is_empty (trim query)) (validation "Search query is required." "MISSING_QUERY")
    hits ← gets (λ w.
        engine (take 500 (trim query)) (λ m. m.room_id == room_id && not (is_some m.deleted_at))
          w.messages)
    pure (
        paginated_response (map to_message_response (take p.page_size (drop p.skip hits)))
          (length hits) p.page p.page_size)
