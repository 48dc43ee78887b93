-- ===== src/Messages/Editing.antt =====
-- When a message can be edited and deleted, and what is seen of it afterwards.
use node_chat_api.Prelude.{
  ℕ, ◌+◌, ◌≡◌, some, not, ◌&&◌, arith, leb, is_some, ◌==◌, if◌then◌else◌, inl, inr, Option-cases,
  refl,
}
use node_chat_api.Text.{Text, trim}
use node_chat_api.Errors.{coded}
use node_chat_api.Action.{ok, err}
use node_chat_api.Models.{Message}
use node_chat_api.World.{Backend, World, find_message}
use node_chat_api.Messages.{
  to_message_response, deleted_text, edit_message, delete_message, is_editable, is_deletable,
}

module _ ⦃b : Backend⦄ where
  abbrev pub edited : ℕ → Text → Message → Message
  edited now content m = record m { content = trim content; edited_at = some now }

  -- An edit of a stored message goes through exactly when the caller sent it, it is not deleted, and it
  -- is at most 15 minutes old; it then stores the trimmed text and the time of the edit. Otherwise it
  -- is EDIT_NOT_ALLOWED. No other message changes.
  pub edit_message_lem :
      (i u : ℕ) (content : Text) (w : World) (m : Message)
      → find_message i w ≡ some m
      → let allowed =
          m.sender_id == u && not (is_some m.deleted_at) && leb w.now (m.created_at + 900000) in
        ((edit_message i u content w).0 ≡ (
          if allowed
          then ok (to_message_response (edited w.now content m))
          else err (coded "EDIT_NOT_ALLOWED")))
        × ((j : ℕ)
            → find_message j (edit_message i u content w).1
              ≡ (if i == j && allowed then some (edited w.now content m) else find_message j w))
  unfolding edit_message
  edit_message_lem i u content w m e = (
    ground (
      arith,
      b.messages.find_one_and_update-result i (is_editable w.now u) (edited w.now content)
          w.messages,
    ),
    (λ j. ground (
      arith,
      b.messages.find_one_and_update-result i (is_editable w.now u) (edited w.now content)
          w.messages,
      b.messages.find_by_id-find_one_and_update i j (is_editable w.now u) (edited w.now content)
          w.messages,
    )),
  )

  abbrev erased : ℕ → Message → Message
  erased now m = record m { deleted_at = some now }

  -- After a deletion that succeeded the message is shown as `[deleted]`, and it can neither be edited nor
  -- deleted again, by anybody and at any later time.
  pub delete_message_final :
      (i u ms : ℕ) (w : World) (x : ℕ × ℕ)
      → (delete_message i u w).0 ≡ ok x
      → let w' = record (delete_message i u w).1 { now = w.now + ms } in
        ((m : Message) × (find_message i w' ≡ some m)
          × ((to_message_response m).content ≡ deleted_text))
        × ((v : ℕ) (content : Text)
            → (edit_message i v content w').0 ≡ err (coded "EDIT_NOT_ALLOWED"))
        × ((v : ℕ) → (delete_message i v w').0 ≡ err (coded "DELETE_NOT_ALLOWED"))
  unfolding delete_message edit_message
  delete_message_final i u ms w x h = elim (Option-cases (find_message i w)) [
    | inl e ↦ absurd (
        ground (
          arith,
          b.messages.find_one_and_update-result i (is_deletable u) (erased w.now) w.messages,
        ))
    | inr (m, e) ↦
        let s : b.messages.State =
          (b.messages.find_one_and_update i (is_deletable u) (erased w.now) w.messages).1 in
        let r =
          b.messages.find_one_and_update-result i (is_deletable u) (erased w.now) w.messages in
        let f =
          b.messages.find_by_id-find_one_and_update i i (is_deletable u) (erased w.now)
            w.messages in
        (
          (erased w.now m, ground arith, refl),
          (λ v content. ground (
            arith,
            b.messages.find_one_and_update-result i (is_editable (w.now + ms) v)
                (edited (w.now + ms) content) s,
          )),
          (λ v. ground (
            arith,
            b.messages.find_one_and_update-result i (is_deletable v) (erased (w.now + ms)) s,
          )),
        )
  ]
