-- ===== src/Server/Quiet.antt =====
-- The handlers of messages, typing and receipts leave alone who is connected, to what, who is online,
-- and the rooms.
use node_chat_api.Prelude.{ℕ, ◌≡◌, String, Option, none, some, List, not, ap, refl, arith, ◌∙◌}
use node_chat_api.Text.{Text, trim, is_empty}
use node_chat_api.Action.{Action, Result, ok, err, ◌>>=◌}
use node_chat_api.Action.Keeps.{Keeps, bind-Keeps, if-Keeps}
use node_chat_api.Backend.{ZSet, online_users, msg_limit, stamp}
use node_chat_api.World.{Backend, World}
use node_chat_api.Messages.{
  MessageResponse, create_message, edit_message, delete_message, toggle_reaction, remove_reaction,
}
use node_chat_api.Unread.{increment_unread}
use node_chat_api.Receipts.{mark_read}
use node_chat_api.MessageLimit.{check_message_rate_limit}
use node_chat_api.Server.{
  Socket, Server, Audience, Event, serve, emit, safe, caught, to_room, message_edit, message_delete,
  message_reaction,
}
use node_chat_api.Server.Messages.{
  message_send, message_edited, message_deleted, message_reacted, Request, to_send, to_edit,
  to_delete, to_react, handle, deliver, limited, accepted, send, edit, react,
}
use node_chat_api.Server.Typing.{typing_start, typing_stop}
use node_chat_api.Server.Reading.{read_mark, marked}

module _ ⦃b : Backend⦄ where
  abbrev online : World → ZSet × b.rooms.State
  online w = (b.sets.zset w.sets online_users, w.rooms)

  abbrev pub who : Server → List (ℕ × List ℕ) × List (ℕ × ℕ) × ZSet × b.rooms.State
  who s = let (z, rs) = online s.world in (s.user_sockets, s.channels, z, rs)

  serve-Keeps : {A : Type 0} (m : Action World A) → Keeps online m → Keeps who (serve m)
  serve-Keeps m h = record {
    kept = λ s. ap (λ z. (s.user_sockets, s.channels, z.0, z.1)) (h.kept s.world);
  }

  check_message_rate_limit-Keeps : (n u : ℕ) → Keeps online (check_message_rate_limit n u)
  unfolding check_message_rate_limit
  check_message_rate_limit-Keeps n u = record {
    kept = λ w.
        let k = msg_limit u in
        let s : b.sets.State = b.sets.zremrangebyscore w.now k 60000 w.sets in
        ap (λ z. (z, w.rooms))
          (b.sets.zset-expire w.now 60 k online_users (b.sets.zadd w.now k w.now (stamp w.now n) s)
            ∙ b.sets.zset-zadd w.now w.now k online_users (stamp w.now n) s
            ∙ b.sets.zset-zremrangebyscore w.now 60000 k online_users w.sets);
  }

  create_message-Keeps :
      (i r u : ℕ) (name : String) (text : Text) → Keeps online (create_message i r u name text)
  unfolding create_message
  create_message-Keeps i r u name text = record { kept = λ w. ground arith }

  increment_unread-Keeps : (r u : ℕ) → Keeps online (increment_unread r u)
  unfolding increment_unread
  increment_unread-Keeps r u = record { kept = λ w. ground arith }

  edit_message-Keeps : (i u : ℕ) (text : Text) → Keeps online (edit_message i u text)
  unfolding edit_message
  edit_message-Keeps i u text = record { kept = λ w. ground arith }

  delete_message-Keeps : (i u : ℕ) → Keeps online (delete_message i u)
  unfolding delete_message
  delete_message-Keeps i u = record { kept = λ w. ground arith }

  toggle_reaction-Keeps : (i u : ℕ) (emoji : Text) → Keeps online (toggle_reaction i u emoji)
  unfolding toggle_reaction remove_reaction
  toggle_reaction-Keeps i u emoji = record { kept = λ w. ground arith }

  caught-Keeps :
      (socket : Socket) (s : Server) (out : Result Unit × Server)
      → who out.1 ≡ who s
      → who (caught socket out.0 out.1).1 ≡ who s
  unfolding caught
  caught-Keeps socket s (ok _, s') h = h
  caught-Keeps socket s (err e, s') h = h

  safe-Keeps : (socket : Socket) (m : Action Server Unit) → Keeps who m → Keeps who (safe socket m)
  unfolding safe
  safe-Keeps socket m h = record { kept = λ s. caught-Keeps socket s (m s) (h.kept s) }

  deliver-Keeps : (socket : Socket) (r : ℕ) (m : MessageResponse) → Keeps who (deliver socket r m)
  unfolding deliver
  deliver-Keeps socket r m = record {
    kept = λ s.
        (serve-Keeps (increment_unread r socket.user.sub)
            (increment_unread-Keeps r socket.user.sub)).kept
          s;
  }

  send-Keeps : (i n r : ℕ) (socket : Socket) (text : Text) → Keeps who (send i n socket r text)
  unfolding send limited accepted
  send-Keeps i n r socket text =
      if-Keeps who (is_empty (trim text)) _ _ (record { kept = λ s. refl })
        (if-Keeps who (not socket.user.verified) _ _ (record { kept = λ s. refl })
          (bind-Keeps who (serve (check_message_rate_limit n socket.user.sub)) _
            (serve-Keeps _ (check_message_rate_limit-Keeps n socket.user.sub))
            λ allowed.
              if-Keeps who (not allowed) _ _ (record { kept = λ s. refl })
                (bind-Keeps who
                  (serve (create_message i r socket.user.sub socket.user.username text)) _
                  (serve-Keeps _
                    (create_message-Keeps i r socket.user.sub socket.user.username text))
                  (λ m. deliver-Keeps socket r m))))

  pub message_send-Keeps :
      (i n r : ℕ) (socket : Socket) (text : Option Text)
      → Keeps who (message_send i n socket r text)
  unfolding message_send
  message_send-Keeps i n r socket none = safe-Keeps socket _ (record { kept = λ s. refl })
  message_send-Keeps i n r socket (some text) = safe-Keeps socket _ (send-Keeps i n r socket text)

  -- A call of a service, and news of its result.
  told-Keeps :
      {A : Type 0} (m : Action World A) (to : A → Audience) (event : A → Event)
      → Keeps online m
      → Keeps who (serve m >>= λ a. emit (to a) (event a))
  told-Keeps m to event h =
      bind-Keeps who (serve m) (λ a. emit (to a) (event a)) (serve-Keeps m h)
        (λ a. record { kept = λ s. refl })

  edit-Keeps : (i : ℕ) (socket : Socket) (text : Text) → Keeps who (edit socket i text)
  unfolding edit
  edit-Keeps i socket text =
      if-Keeps who (is_empty (trim text)) _ _ (record { kept = λ s. refl })
        (told-Keeps (edit_message i socket.user.sub text) (λ m. to_room m.room_id) message_edit
          (edit_message-Keeps i socket.user.sub text))

  message_edited-Keeps :
      (i : ℕ) (socket : Socket) (text : Option Text) → Keeps who (message_edited socket i text)
  unfolding message_edited
  message_edited-Keeps i socket none = safe-Keeps socket _ (record { kept = λ s. refl })
  message_edited-Keeps i socket (some text) =
      safe-Keeps socket (λ s. edit socket i text s) (edit-Keeps i socket text)

  message_deleted-Keeps : (i : ℕ) (socket : Socket) → Keeps who (message_deleted socket i)
  unfolding message_deleted
  message_deleted-Keeps i socket = safe-Keeps socket _ (
      told-Keeps (delete_message i socket.user.sub) (λ d. to_room d.1) (λ d. message_delete d.0 d.1)
        (delete_message-Keeps i socket.user.sub))

  react-Keeps : (i : ℕ) (socket : Socket) (emoji : Option Text) → Keeps who (react socket i emoji)
  unfolding react
  react-Keeps i socket none = record { kept = λ s. refl }
  react-Keeps i socket (some emoji) =
      if-Keeps who (is_empty emoji) _ _ (record { kept = λ s. refl })
        (told-Keeps (toggle_reaction i socket.user.sub emoji) (λ m. to_room m.room_id)
          (λ m. message_reaction m.id m.room_id m.reactions)
          (toggle_reaction-Keeps i socket.user.sub emoji))

  message_reacted-Keeps :
      (i : ℕ) (socket : Socket) (emoji : Option Text) → Keeps who (message_reacted socket i emoji)
  unfolding message_reacted
  message_reacted-Keeps i socket emoji =
      safe-Keeps socket (react socket i emoji) (react-Keeps i socket emoji)

  pub handle-Keeps : (socket : Socket) (q : Request) → Keeps who (handle socket q)
  unfolding handle
  handle-Keeps socket (to_send i n r text) = message_send-Keeps i n r socket text
  handle-Keeps socket (to_edit i text) = message_edited-Keeps i socket text
  handle-Keeps socket (to_delete i) = message_deleted-Keeps i socket
  handle-Keeps socket (to_react i emoji) = message_reacted-Keeps i socket emoji

  pub typing_start-Keeps : (socket : Socket) (r : Option ℕ) → Keeps who (typing_start socket r)
  unfolding typing_start
  typing_start-Keeps socket none = record { kept = λ s. refl }
  typing_start-Keeps socket (some r) = record { kept = λ s. refl }

  pub typing_stop-Keeps : (socket : Socket) (r : Option ℕ) → Keeps who (typing_stop socket r)
  unfolding typing_stop
  typing_stop-Keeps socket none = record { kept = λ s. refl }
  typing_stop-Keeps socket (some r) = record { kept = λ s. refl }

  pub read_mark-Keeps : (socket : Socket) (r : Option ℕ) → Keeps who (read_mark socket r)
  unfolding read_mark marked mark_read
  read_mark-Keeps socket none = record { kept = λ s. refl }
  read_mark-Keeps socket (some r) = record { kept = λ s. ground arith }
