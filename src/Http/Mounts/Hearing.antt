-- ===== src/Http/Mounts/Hearing.antt =====
-- A socket that has joined a room's channel hears the messages of the room, whatever happens meanwhile.
use node_chat_api.Prelude.{
  ℕ, ◌≡◌, ◌++◌, String, Option, some, none, List, [], ◌∷◌, Bool, true, ap, ◌∙◌, arith,
}
use node_chat_api.Text.{Text}
use node_chat_api.Action.{ok}
use node_chat_api.Backend.{Key}
use node_chat_api.Models.{Room, Message}
use node_chat_api.World.{Backend, find_room}
use node_chat_api.Members.{has_member}
use node_chat_api.Messages.{to_message_response}
use node_chat_api.MessageLimit.{check_message_rate_limit}
use node_chat_api.Middleware.{Header}
use node_chat_api.Server.{Socket, Server, to_room, message_new}
use node_chat_api.Server.Messages.{message_send, handle}
use node_chat_api.Server.Messages.Sending.{sent, verdict, message_send-sent}
use node_chat_api.Server.Typing.{typing_start, typing_stop}
use node_chat_api.Server.Reading.{read_mark}
use node_chat_api.Server.Quiet.{
  message_send-Keeps, handle-Keeps, typing_start-Keeps, typing_stop-Keeps, read_mark-Keeps,
}
use node_chat_api.Server.Connections.{connected}
use node_chat_api.Server.Connections.Hearing.{
  hears, is_subscribed, connected-is_subscribed, connected-listed, kept_subscribed,
  disconnected_channels,
}
use node_chat_api.Http.RoomsRouter.Channels.{Stays, rooms_router-Stays}
use node_chat_api.Http.Mounts.{
  AppRequest, to_auth, to_rooms, to_users, to_health, to_ready, to_queues, to_swagger, to_other,
  Packages, mounted, serve_request,
}
use node_chat_api.Http.Mounts.Runs.{
  AppEvent, requested, connects, disconnects, sends, types, stops_typing, reads, evicts, elapses,
  happen, happen_all,
}

module _ ⦃b : Backend⦄ (packages : Packages) (retry_after : ℕ → Key → b.redis.State → String)
    (engine : Text → (Message → Bool) → b.messages.State → List Message) where
  serve_request-Stays :
      (j i : ℕ) (ip : Option String) (header : Header) (q : AppRequest) (s : Server)
      → Stays j i s (serve_request packages retry_after engine ip header q s).1
  unfolding serve_request mounted
  serve_request-Stays j i ip header (to_auth q) s h = h
  serve_request-Stays j i ip header (to_rooms q) s h = rooms_router-Stays engine j i header q s h
  serve_request-Stays j i ip header (to_users q) s h = h
  serve_request-Stays j i ip header to_health s h = h
  serve_request-Stays j i ip header (to_ready mongo redis) s h = h
  serve_request-Stays j i ip header (to_queues q) s h = h
  serve_request-Stays j i ip header (to_swagger q) s h = h
  serve_request-Stays j i ip header to_other s h = h

  -- Nothing takes a socket out of a channel.
  happen-Stays :
      (j i : ℕ) (e : AppEvent) (s : Server) → Stays j i s (happen packages retry_after engine e s)
  unfolding happen
  happen-Stays j i (requested ip header q) s h = serve_request-Stays j i ip header q s h
  happen-Stays j i (connects k) s h = ground (arith, connected-is_subscribed k s j i)
  happen-Stays j i (disconnects k rs) s h =
      ap (is_subscribed j i) (disconnected_channels k rs s) ∙ h
  happen-Stays j i (sends k q) s h = kept_subscribed (handle k q) s j i (handle-Keeps k q) h
  happen-Stays j i (types k r) s h =
      kept_subscribed (typing_start k r) s j i (typing_start-Keeps k r) h
  happen-Stays j i (stops_typing k r) s h =
      kept_subscribed (typing_stop k r) s j i (typing_stop-Keeps k r) h
  happen-Stays j i (reads k r) s h = kept_subscribed (read_mark k r) s j i (read_mark-Keeps k r) h
  happen-Stays j i evicts s h = h
  happen-Stays j i (elapses ms) s h = h

  happen_all-Stays :
      (j i : ℕ) (es : List AppEvent) (s : Server)
      → Stays j i s (happen_all packages retry_after engine es s)
  unfolding happen_all
  happen_all-Stays j i [] s h = h
  happen_all-Stays j i (e ∷ es) s h =
      happen_all-Stays j i es (happen packages retry_after engine e s) (happen-Stays j i e s h)

  -- A socket connects while a stored room lists its user. Then anything may happen to the server: requests
  -- to the app, connections, disconnections and events of anybody, runs of the job, the passage of time,
  -- each handler run as a whole. At last somebody sends a message to that room that is accepted: it is
  -- told, once, to the room's channel, and the socket hears it as long as it is connected, also when its
  -- user has left the room or has been kicked meanwhile. (The id that the driver made is free.)
  pub message_send-connected :
      (k sender : Socket) (i nonce room : ℕ) (text : Text) (allowed : Bool) (s : Server)
      (es : List AppEvent) (r r' : Room) (t : b.messages.State)
      → find_room room s.world ≡ some r
      → r.id ≡ room
      → has_member k.user.sub r.members ≡ true
      → let s' = happen_all packages retry_after engine es (connected k s).1 in
        (check_message_rate_limit nonce sender.user.sub s'.world).0 ≡ ok allowed
        → find_room room s'.world ≡ some r'
        → b.messages.create i (sent i room sender.user text s'.world.now) s'.world.messages ≡ some t
        → verdict text sender.user allowed (some r') ≡ none
        → let out = (message_send i nonce sender room (some text) s').1 in
          (out.emitted
            ≡ s'.emitted
              ++ (
                to_room room,
                message_new (to_message_response (sent i room sender.user text s'.world.now)),
              )
                ∷ [])
          × (hears k.id (to_room room) out.channels ≡ true)
  message_send-connected k sender i nonce room text allowed s es r r' t e same listed a f c v =
      let s' : Server = happen_all packages retry_after engine es (connected k s).1 in
      (
        (message_send-sent sender i nonce room text allowed s' r' t a f (rw f v) c).0,
        kept_subscribed (message_send i nonce sender room (some text)) s' k.id room
            (message_send-Keeps i nonce room sender (some text))
            (happen_all-Stays k.id room es (connected k s).1
              (connected-listed k s room r e same listed)),
      )
