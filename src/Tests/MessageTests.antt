-- ===== src/Tests/MessageTests.antt =====
-- The message service on the state `start`.
use node_chat_api.Prelude.{ℕ, ◌≡◌, refl, some, [], ◌∷◌, true, not, ◌&&◌, arith, ◌==◌, if◌then◌else◌}
use node_chat_api.Text.{Text, trim, count_points}
use node_chat_api.Errors.{coded}
use node_chat_api.Action.{ok, err}
use node_chat_api.Models.{Message}
use node_chat_api.World.{World, find_message}
use node_chat_api.Demo.{demo, start, hello, general}
use node_chat_api.Messages.{
  absent, edit_message, delete_message, toggle_reaction, to_message_response, deleted_text, text_eq,
}
use node_chat_api.Messages.Pages.{follow, follow_lem}
use node_chat_api.Paginate.{nonneg}
use node_chat_api.Messages.Editing.{edited, edit_message_lem, delete_message_final}
use node_chat_api.Messages.Toggle.{reacts, toggle_reaction_lem}

-- A thumb, in two code units.
abbrev thumb : Text
thumb = 0xD83D ∷ 0xDC4D ∷ []

thumb_points : count_points thumb ≡ 1
unfolding count_points
thumb_points = refl

trimmed : trim (32 ∷ 104 ∷ 32 ∷ 105 ∷ 10 ∷ []) ≡ 104 ∷ 32 ∷ 105 ∷ []
unfolding trim
trimmed = refl

edit_message_lem_example :
    ((edit_message 20 1 (104 ∷ []) start).0
      ≡ ok (to_message_response (edited 1000 (104 ∷ []) hello)))
    × ((j : ℕ)
        → find_message j (edit_message 20 1 (104 ∷ []) start).1
          ≡ (if 20 == j && true then some (edited 1000 (104 ∷ []) hello) else find_message j start))
edit_message_lem_example = edit_message_lem 20 1 (104 ∷ []) start hello refl

delete_runs : (delete_message 20 1 start).0 ≡ ok (20, 10)
unfolding delete_message
delete_runs = refl

delete_message_final_example :
    let w = record (delete_message 20 1 start).1 { now = 1007 } in
    ((m : Message) × (find_message 20 w ≡ some m)
      × ((to_message_response m).content ≡ deleted_text))
    × ((v : ℕ) (content : Text) → (edit_message 20 v content w).0 ≡ err (coded "EDIT_NOT_ALLOWED"))
    × ((v : ℕ) → (delete_message 20 v w).0 ≡ err (coded "DELETE_NOT_ALLOWED"))
delete_message_final_example = delete_message_final 20 1 7 start (20, 10) delete_runs

toggle_reaction_lem_example :
    (m : Message) × ((toggle_reaction 20 2 thumb start).0 ≡ ok (to_message_response m))
    × (m ≡ record hello { reactions = m.reactions })
    × ((j : ℕ)
        → find_message j (toggle_reaction 20 2 thumb start).1
          ≡ (if 20 == j then some m else find_message j start))
    × ((f : Text) (v : ℕ)
        → reacts f v m
          ≡ (if text_eq thumb f && (2 == v) then not (reacts thumb 2 hello) else reacts f v hello))
toggle_reaction_lem_example =
    toggle_reaction_lem 20 2 thumb start hello refl refl refl (omega (arith, thumb_points))
      (omega (arith, thumb_points))

-- Three messages in room 10, and one in another room.
abbrev talk : World
talk = record start {
  messages =
      (20, hello)
      ∷ (21, record hello { id = 21; created_at = 950 })
      ∷ (22, record hello { id = 22; created_at = 960 })
      ∷ (23, record hello { id = 23; room_id = 11; created_at = 970 })
      ∷ [];
}

follow_lem_example :
    follow 3 10 (nonneg 1) absent talk
    ≡ to_message_response (record hello { id = 22; created_at = 960 })
      ∷ to_message_response (record hello { id = 21; created_at = 950 })
      ∷ to_message_response hello
      ∷ []
follow_lem_example =
    follow_lem 3 10 (nonneg 1) talk general refl
      ((omega arith, (omega arith, tt)), ((omega arith, tt), (tt, tt))) (omega arith)
