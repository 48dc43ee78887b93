-- ===== src/Server/Connections/Runs.antt =====
-- Runs of the server, from its start.
use node_chat_api.Prelude.{ℕ, Option, ◌≡◌, List, [], ◌∷◌, refl, ap, sym}
use node_chat_api.Action.{Action}
use node_chat_api.Backend.{user, empty_zset}
use node_chat_api.World.{Backend}
use node_chat_api.Presence.Eviction.{holds}
use node_chat_api.Server.{Socket, Server}
use node_chat_api.Server.Messages.{Request, handle}
use node_chat_api.Server.Typing.{typing_start, typing_stop}
use node_chat_api.Server.Reading.{read_mark}
use node_chat_api.Action.Keeps.{Keeps}
use node_chat_api.Server.Quiet.{
  who, handle-Keeps, typing_start-Keeps, typing_stop-Keeps, read_mark-Keeps,
}
use node_chat_api.Server.Connections.{has_user, connected, disconnected}
use node_chat_api.Server.Connections.Tabs.{is_held}
use node_chat_api.Server.Connections.Open.{
  Agrees, Agrees-path, Open, closed, has_user-is_connected, is_connected, is_open,
}
use node_chat_api.Server.Connections.Online.{online_set, connected-Agrees, disconnected-Agrees}

module _ ⦃b : Backend⦄ where
  -- What happens to the server: connections, disconnections, the events of clients, and the passage
  -- of time. A socket that disconnects is in the rooms `rs`.
  pub data Run (s0 : Server) : Open → Server → Type 0 where
    starts : Run s0 [] s0
    connects :
        {ps : Open} {s : Server} (k : Socket)
        → Run s0 ps s
        → Run s0 ((k.user.sub, k.id) ∷ ps) (connected k s).1
    disconnects :
        {ps : Open} {s : Server} (k : Socket) (rs : List ℕ)
        → Run s0 ps s
        → Run s0 (closed k.user.sub k.id ps) (disconnected k rs s).1
    requests :
        {ps : Open} {s : Server} (k : Socket) (q : Request)
        → Run s0 ps s
        → Run s0 ps (handle k q s).1
    types :
        {ps : Open} {s : Server} (k : Socket) (r : Option ℕ)
        → Run s0 ps s
        → Run s0 ps (typing_start k r s).1
    stops_typing :
        {ps : Open} {s : Server} (k : Socket) (r : Option ℕ)
        → Run s0 ps s
        → Run s0 ps (typing_stop k r s).1
    reads :
        {ps : Open} {s : Server} (k : Socket) (r : Option ℕ)
        → Run s0 ps s
        → Run s0 ps (read_mark k r s).1
    elapses :
        {ps : Open} {s : Server} (now : ℕ)
        → Run s0 ps s
        → Run s0 ps (record s { world = record s.world { now = now } })

  kept-Agrees :
      (ps : Open) (m : Action Server Unit) (s : Server)
      → Keeps who m
      → Agrees ps s.user_sockets (online_set s)
      → Agrees ps (m s).1.user_sockets (online_set (m s).1)
  kept-Agrees ps m s h =
      Agrees-path ps (sym (ap (λ x. x.0) (h.kept s))) (sym (ap (λ x. x.2) (h.kept s)))

  Run-Agrees :
      (s0 s : Server) (ps : Open)
      → s0.user_sockets ≡ []
      → online_set s0 ≡ empty_zset
      → Run s0 ps s
      → Agrees ps s.user_sockets (online_set s)
  Run-Agrees s0 s ps e f starts = Agrees-path [] (sym e) (sym f) (tt, λ v j. refl, refl, λ v. refl)
  Run-Agrees s0 s ps e f (connects k run) = connected-Agrees k _ _ (Run-Agrees s0 _ _ e f run)
  Run-Agrees s0 s ps e f (disconnects k rs run) =
      disconnected-Agrees k rs _ _ (Run-Agrees s0 _ _ e f run)
  Run-Agrees s0 s ps e f (requests k q run) =
      kept-Agrees ps (handle k q) _ (handle-Keeps k q) (Run-Agrees s0 _ _ e f run)
  Run-Agrees s0 s ps e f (types k r run) =
      kept-Agrees ps (typing_start k r) _ (typing_start-Keeps k r) (Run-Agrees s0 _ _ e f run)
  Run-Agrees s0 s ps e f (stops_typing k r run) =
      kept-Agrees ps (typing_stop k r) _ (typing_stop-Keeps k r) (Run-Agrees s0 _ _ e f run)
  Run-Agrees s0 s ps e f (reads k r run) =
      kept-Agrees ps (read_mark k r) _ (read_mark-Keeps k r) (Run-Agrees s0 _ _ e f run)
  Run-Agrees s0 s ps e f (elapses now run) = Run-Agrees s0 _ _ e f run

  -- From an empty `userSockets` and an empty set `online:users`, after any connections, disconnections
  -- and events about messages, typing and reading, of any users, in any order and over any time, with no
  -- removal of stale users between them: `userSockets` has a key for exactly the users with an open
  -- connection, holds for each exactly the sockets that are open, and `online:users` has exactly those
  -- users, so a user with several tabs is marked as offline with the last one that is closed.
  pub Run-connections :
      (s0 s : Server) (ps : Open)
      → s0.user_sockets ≡ []
      → online_set s0 ≡ empty_zset
      → Run s0 ps s
      → (v : ℕ)
      → (has_user v s.user_sockets ≡ is_connected v ps)
        × ((j : ℕ) → is_held v j s.user_sockets ≡ is_open v j ps)
        × (holds (user v) (online_set s).items ≡ is_connected v ps)
  Run-connections s0 s ps e f run v =
      let h = Run-Agrees s0 s ps e f run in
      (has_user-is_connected v s.user_sockets ps h.0 (h.1 v), h.1 v, h.3 v)
