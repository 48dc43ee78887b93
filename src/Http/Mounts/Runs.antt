-- ===== src/Http/Mounts/Runs.antt =====
-- The rooms after anything that happens to the server: requests, events of sockets, runs of the job.
use node_chat_api.Prelude.{ℕ, ◌+◌, ◌≡◌, inl, inr, refl, String, Option, List, [], ◌∷◌, ap, Bool}
use node_chat_api.Text.{Text}
use node_chat_api.Backend.{Key}
use node_chat_api.Models.{Message}
use node_chat_api.World.{Backend, World}
use node_chat_api.Rooms.Invariant.{IsValid, step-IsValid}
use node_chat_api.Rooms.Calls.{step}
use node_chat_api.Middleware.{Header}
use node_chat_api.Action.{Action}
use node_chat_api.Action.Keeps.{Keeps}
use node_chat_api.Presence.{tick, evict_stale_users}
use node_chat_api.Server.{Socket, Server, serve}
use node_chat_api.Server.Messages.{Request, handle}
use node_chat_api.Server.Typing.{typing_start, typing_stop}
use node_chat_api.Server.Reading.{read_mark}
use node_chat_api.Server.Quiet.{
  who, handle-Keeps, typing_start-Keeps, typing_stop-Keeps, read_mark-Keeps,
}
use node_chat_api.Server.Connections.{connected, disconnected}
use node_chat_api.Server.Connections.Apart.{connected-Keeps, disconnected-Keeps}
use node_chat_api.Http.AuthRouter.Confined.{auth_router-Keeps}
use node_chat_api.Http.UsersRouter.Confined.{users_router-Keeps}
use node_chat_api.Http.RoomsRouter.Effects.{Moves, rooms_router-Moves}
use node_chat_api.Http.Mounts.{
  AppRequest, to_auth, to_rooms, to_users, to_health, to_ready, to_queues, to_swagger, to_other,
  Packages, mounted, serve_request,
}

module _ ⦃b : Backend⦄ where
  -- A request from an address and with a header; a socket that connects, disconnects while it is in the
  -- rooms `rs`, or asks for something; a run of the job; milliseconds that pass.
  pub data AppEvent : Type 0 where
    requested : Option String → Header → AppRequest → AppEvent
    connects : Socket → AppEvent
    disconnects : Socket → List ℕ → AppEvent
    sends : Socket → Request → AppEvent
    types : Socket → Option ℕ → AppEvent
    stops_typing : Socket → Option ℕ → AppEvent
    reads : Socket → Option ℕ → AppEvent
    evicts : AppEvent
    elapses : ℕ → AppEvent

  IsValid-path : (w v : World) → v.rooms ≡ w.rooms → IsValid w → IsValid v
  IsValid-path w v e h j = rw e (h j)

  Moves-IsValid : (w v : World) → Moves w v → IsValid w → IsValid v
  Moves-IsValid w v (inl e) h = IsValid-path w v e h
  Moves-IsValid w v (inr (c, e)) h = IsValid-path (step c w) v e (step-IsValid c w h)

module _ ⦃b : Backend⦄ (packages : Packages) (retry_after : ℕ → Key → b.redis.State → String)
    (engine : Text → (Message → Bool) → b.messages.State → List Message) where
  serve_request-Moves :
      (ip : Option String) (header : Header) (q : AppRequest) (s : Server)
      → Moves s.world (serve_request packages retry_after engine ip header q s).1.world
  unfolding serve_request mounted
  serve_request-Moves ip header (to_auth q) s =
      inl (ap (λ z. z.0) ((auth_router-Keeps retry_after ip header q).kept s.world))
  serve_request-Moves ip header (to_rooms q) s = rooms_router-Moves engine header q s
  serve_request-Moves ip header (to_users q) s =
      inl (ap (λ z. z.0) ((users_router-Keeps header q).kept s.world))
  serve_request-Moves ip header to_health s = inl refl
  serve_request-Moves ip header (to_ready mongo redis) s = inl refl
  serve_request-Moves ip header (to_queues q) s = inl refl
  serve_request-Moves ip header (to_swagger q) s = inl refl
  serve_request-Moves ip header to_other s = inl refl

  -- What happens to the server, each handler as a whole.
  unfoldable pub happen : AppEvent → Server → Server
  happen (requested ip header q) s = (serve_request packages retry_after engine ip header q s).1
  happen (connects k) s = (connected k s).1
  happen (disconnects k rs) s = (disconnected k rs s).1
  happen (sends k q) s = (handle k q s).1
  happen (types k r) s = (typing_start k r s).1
  happen (stops_typing k r) s = (typing_stop k r s).1
  happen (reads k r) s = (read_mark k r s).1
  happen evicts s = (serve tick s).1
  happen (elapses ms) s = record s { world = record s.world { now = s.world.now + ms } }

  unfoldable pub happen_all : List AppEvent → Server → Server
  happen_all [] s = s
  happen_all (e ∷ es) s = happen_all es (happen e s)

  quiet-Moves : (m : Action Server Unit) (s : Server) → Keeps who m → Moves s.world (m s).1.world
  quiet-Moves m s h = inl (ap (λ x. x.3) (h.kept s))

  happen-Moves : (e : AppEvent) (s : Server) → Moves s.world (happen e s).world
  unfolding happen tick evict_stale_users
  happen-Moves (requested ip header q) s = serve_request-Moves ip header q s
  happen-Moves (connects k) s = inl ((connected-Keeps k).kept s)
  happen-Moves (disconnects k rs) s = inl ((disconnected-Keeps k rs).kept s)
  happen-Moves (sends k q) s = quiet-Moves (handle k q) s (handle-Keeps k q)
  happen-Moves (types k r) s = quiet-Moves (typing_start k r) s (typing_start-Keeps k r)
  happen-Moves (stops_typing k r) s = quiet-Moves (typing_stop k r) s (typing_stop-Keeps k r)
  happen-Moves (reads k r) s = quiet-Moves (read_mark k r) s (read_mark-Keeps k r)
  happen-Moves evicts s = inl refl
  happen-Moves (elapses ms) s = inl refl

  -- From a state in which every room lists nobody twice, every group room has exactly one owner and
  -- every DM none, whatever happens to the server leads to such a state: requests to the app, with
  -- any header and of any outcome, connections, disconnections and events of sockets, runs of the job that
  -- removes stale users, the passage of time, any number of them in any order, each handler run as a
  -- whole.
  pub happen_all-IsValid :
      (es : List AppEvent) (s : Server) → IsValid s.world → IsValid (happen_all es s).world
  unfolding happen_all
  happen_all-IsValid [] s h = h
  happen_all-IsValid (e ∷ es) s h =
      happen_all-IsValid es (happen e s)
        (Moves-IsValid s.world (happen e s).world (happen-Moves e s) h)
