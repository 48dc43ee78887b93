-- ===== src/Server/Messages/Answers.antt =====
-- What a client gets for each of its requests about messages.
use node_chat_api.Prelude.{
  ℕ, ◌≡◌, inl, inr, String, Option, none, some, [], ◌∷◌, ◌++◌, Bool, true, false, not, arith, refl,
  ap, sym, Bool-cases, if◌then◌else◌,
}
use node_chat_api.Text.{Text, trim, is_empty}
use node_chat_api.Action.{Action, Result, ok, err, ◌>>=◌}
use node_chat_api.World.{Backend, World}
use node_chat_api.Server.{
  Socket, Server, Audience, to_socket, to_room, Event, error, message_new, message_edit,
  message_delete, message_reaction, emit, serve,
}
use node_chat_api.Messages.{
  delete_message, edit_message, create_message, toggle_reaction, MessageResponse,
}
use node_chat_api.Server.Messages.{
  message_send, message_edited, message_deleted, message_reacted, Request, to_send, to_edit,
  to_delete, to_react, handle, deliver, limited, accepted, send,
}
use node_chat_api.Unread.{increment_unread}
use node_chat_api.MessageLimit.{check_message_rate_limit}
use node_chat_api.Server.Messages.Wrapped.{
  Answered, IsAnswer, SafeHandler, is_documented, news_of, safe-Answered,
}

module _ ⦃b : Backend⦄ where
  message_deleted-Answered :
      (socket : Socket) (i : ℕ) (s : Server) → Answered socket s (message_deleted socket i s)
  unfolding message_deleted
  message_deleted-Answered socket i s = safe-Answered socket _ s (
      news_of socket (delete_message i socket.user.sub) (λ r. (to_room r.1, message_delete r.0 r.1))
        s (λ r e. refl))

  refused :
      (socket : Socket) (code : String) (s : Server)
      → is_documented code ≡ true
      → SafeHandler socket s (emit (to_socket socket.id) (error code) s)
  refused socket code s h = ((to_socket socket.id, error code), refl, (refl, h))

  either :
      (socket : Socket) (s : Server) (c : Bool) (x y : Action Server Unit)
      → SafeHandler socket s (x s)
      → SafeHandler socket s (y s)
      → SafeHandler socket s ((if c then x else y) s)
  either socket s true x y h k = h
  either socket s false x y h k = k

  message_edited-Answered :
      (socket : Socket) (i : ℕ) (content : Option Text) (s : Server)
      → Answered socket s (message_edited socket i content s)
  unfolding message_edited
  message_edited-Answered socket i none s = safe-Answered socket _ s refl
  message_edited-Answered socket i (some text) s =
      safe-Answered socket _ s (elim (Bool-cases (is_empty (trim text))) [
        | inl blank ↦ rw blank (refused socket "INVALID_CONTENT" s refl)
        | inr given ↦ rw given (
            news_of socket (edit_message i socket.user.sub text)
              (λ m. (to_room m.room_id, message_edit m)) s (λ m e. refl))
      ])

  message_reacted-Answered :
      (socket : Socket) (i : ℕ) (emoji : Option Text) (s : Server)
      → Answered socket s (message_reacted socket i emoji s)
  unfolding message_reacted
  message_reacted-Answered socket i none s =
      safe-Answered socket _ s (refused socket "INVALID_EMOJI" s refl)
  message_reacted-Answered socket i (some emoji) s =
      safe-Answered socket _ s (elim (Bool-cases (is_empty emoji)) [
        | inl blank ↦ rw blank (refused socket "INVALID_EMOJI" s refl)
        | inr given ↦ rw given (
            news_of socket (toggle_reaction i socket.user.sub emoji)
              (λ m. (to_room m.room_id, message_reaction m.id m.room_id m.reactions)) s
              (λ m e. refl))
      ])

  -- A call of a service before the rest of a handler.
  served_first :
      {A : Type 0} (socket : Socket) (k : A → Action Server Unit) (s : Server)
      (out : Result A × World)
      → ((a : A) (w : World) → out.0 ≡ ok a → SafeHandler socket s (k a (record s { world = w })))
      → SafeHandler socket s ((serve (λ _. out) >>= k) s)
  served_first socket k s (ok a, w) h = h a w refl
  served_first socket k s (err x, w) h = refl

  -- A call that succeeds, after the news.
  served_last :
      (socket : Socket) (s s' : Server) (x : Audience × Event) (out : Result Unit × World)
      → out.0 ≡ ok tt
      → s'.emitted ≡ s.emitted ++ x ∷ []
      → IsAnswer socket x
      → SafeHandler socket s (serve (λ _. out) s')
  served_last socket s s' x (ok _, w) h e a = (x, e, a)
  served_last socket s s' x (err y, w) h e a = cc

  increment_unread-ok : (i u : ℕ) (w : World) → (increment_unread i u w).0 ≡ ok tt
  unfolding increment_unread
  increment_unread-ok i u w = ground arith

  create_message-room_id :
      (i r u : ℕ) (name : String) (content : Text) (w : World) (m : MessageResponse)
      → (create_message i r u name content w).0 ≡ ok m
      → m.room_id ≡ r
  unfolding create_message
  create_message-room_id i r u name content w m h = ground arith

  accepted-SafeHandler :
      (socket : Socket) (i room : ℕ) (text : Text) (s : Server)
      → SafeHandler socket s (accepted i socket room text s)
  unfolding accepted
  accepted-SafeHandler socket i room text s =
      let u : ℕ = socket.user.sub in
      let name : String = socket.user.username in
      served_first socket (deliver socket room) s (create_message i room u name text s.world)
        λ m w e.
          let told : Server = record s {
            world = w;
            emitted = s.emitted ++ (to_room room, message_new m) ∷ [];
          } in
          served_last socket s told (to_room room, message_new m) (increment_unread room u w)
            (increment_unread-ok room u w) refl
            (ap to_room (sym (create_message-room_id i room u name text s.world m e)))

  send-SafeHandler :
      (socket : Socket) (i nonce room : ℕ) (text : Text) (s : Server)
      → SafeHandler socket s (send i nonce socket room text s)
  unfolding send
  send-SafeHandler socket i nonce room text s =
      either socket s (is_empty (trim text)) _ _ (refused socket "INVALID_CONTENT" s refl) (
        either socket s (not socket.user.verified) _ _ (refused socket "UNVERIFIED" s refl) (
          served_first socket (limited i socket room text) s
            (check_message_rate_limit nonce socket.user.sub s.world)
            λ allowed w e.
              let s' : Server = record s { world = w } in
              either socket s' (not allowed) _ _ (refused socket "RATE_LIMITED" s' refl)
                (accepted-SafeHandler socket i room text s')))

  message_send-Answered :
      (socket : Socket) (i nonce room : ℕ) (content : Option Text) (s : Server)
      → Answered socket s (message_send i nonce socket room content s)
  unfolding message_send
  message_send-Answered socket i nonce room none s = safe-Answered socket _ s refl
  message_send-Answered socket i nonce room (some text) s =
      safe-Answered socket _ s (send-SafeHandler socket i nonce room text s)

  -- Every request about messages, whatever it holds and whatever the services throw, is answered by
  -- exactly one emission and no error of the handler: news of the message for the channel of its room,
  -- or an error for the socket that asked, with a documented code.
  pub handle-Answered :
      (socket : Socket) (q : Request) (s : Server) → Answered socket s (handle socket q s)
  unfolding handle
  handle-Answered socket (to_send i nonce room content) s =
      message_send-Answered socket i nonce room content s
  handle-Answered socket (to_edit i content) s = message_edited-Answered socket i content s
  handle-Answered socket (to_delete i) s = message_deleted-Answered socket i s
  handle-Answered socket (to_react i emoji) s = message_reacted-Answered socket i emoji s
