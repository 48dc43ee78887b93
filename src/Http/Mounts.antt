-- ===== src/Http/Mounts.antt =====
-- app.js: the routers, mounted beside one another, between the body's parsing and the error handler. Of
-- the reply, only the status is kept. The dashboard of the mail queue and the Swagger UI are routers of
-- other packages, and parameters.
pub mod Anonymous
pub mod Runs
pub mod Hearing
use node_chat_api.Prelude.{ℕ, String, Option, none, some, List, Bool}
use node_chat_api.Text.{Text}
use node_chat_api.Action.{Action, Result, ok, err, pure}
use node_chat_api.Backend.{Key}
use node_chat_api.Models.{Message}
use node_chat_api.World.{Backend, World, Job}
use node_chat_api.Middleware.{Header}
use node_chat_api.Server.{Server, serve}
use node_chat_api.Http.{Reply, error_handler}
use node_chat_api.Http.App.{route_not_found}
use node_chat_api.Http.AuthRouter.{AuthRequest, auth_router}
use node_chat_api.Http.RoomsRouter.{RoomRequest, rooms_router}
use node_chat_api.Http.UsersRouter.{UserRequest, users_router}
use node_chat_api.Http.HealthController.{Ping, liveness, readiness}

module _ ⦃b : Backend⦄ where
  -- The paths below `/api/v1/auth`, `/api/v1/rooms`, `/api/v1/users`, the two of `/health`, the second
  -- with what the pings of MongoDB and Redis do, those below `/admin/queues` and `/swagger`, with the rest
  -- of the request, and every other.
  pub data AppRequest : Type 0 where
    to_auth : AuthRequest → AppRequest
    to_rooms : RoomRequest → AppRequest
    to_users : UserRequest → AppRequest
    to_health : AppRequest
    to_ready : Ping → Ping → AppRequest
    to_queues : String → AppRequest
    to_swagger : String → AppRequest
    to_other : AppRequest

-- The routers of other packages. The dashboard answers from the jobs of the queue and may change them,
-- whatever the request's headers are; Swagger's pages are mounted unless NODE_ENV is `production`.
pub record Packages : Type 0 where
  pub dashboard : String → List Job → ℕ × List Job
  pub swagger : Option (String → ℕ)

-- The status of a reply, or of the error handler's reply to what was thrown.
abbrev pub status_sent : Result ℕ → ℕ
status_sent (ok status) = status
status_sent (err e) = (error_handler {A = Unit} "" e).status

module _ ⦃b : Backend⦄ (packages : Packages) (retry_after : ℕ → Key → b.redis.State → String)
    (engine : Text → (Message → Bool) → b.messages.State → List Message) where
  queues_router : String → Action World ℕ
  queues_router q w =
      let (status, jobs) = packages.dashboard q w.jobs in (ok status, record w { jobs = jobs })

  -- A request that `/swagger` takes, or the routes after it.
  swagger_or_not : String → Option (String → ℕ) → ℕ
  swagger_or_not q (some pages) = pages q
  swagger_or_not q none = (route_not_found {A = Unit}).status

  -- A request from the address `ip` with the header `Authorization`.
  unfoldable pub mounted : Option String → Header → AppRequest → Action Server ℕ
  unfolding queues_router swagger_or_not
  mounted ip header (to_auth q) = serve (auth_router retry_after ip header q)
  mounted ip header (to_rooms q) = rooms_router engine header q
  mounted ip header (to_users q) = serve (users_router header q)
  mounted ip header to_health = pure liveness.0
  mounted ip header (to_ready mongo redis) = pure (readiness mongo redis).0.status
  mounted ip header (to_queues q) = serve (queues_router q)
  mounted ip header (to_swagger q) = pure (swagger_or_not q packages.swagger)
  mounted ip header to_other = pure (route_not_found {A = Unit}).status

  unfoldable pub serve_request : Option String → Header → AppRequest → Server → ℕ × Server
  unfolding mounted
  serve_request ip header q s = let (r, s') = mounted ip header q s in (status_sent r, s')
