-- ===== src/Tests/SystemTests.antt =====
-- Events of all kinds, on the state `start`.
use node_chat_api.Prelude.{none, ℕ, String, some, List, [], ◌∷◌, Bool, true, arith}
use node_chat_api.Text.{Text}
use node_chat_api.Backend.{Key}
use node_chat_api.Models.{Message}
use node_chat_api.Demo.{demo, start}
use node_chat_api.Rooms.Valid.{IsValid}
use node_chat_api.Middleware.{Caller, bearer, refused}
use node_chat_api.Server.{Server, Socket}
use node_chat_api.Server.Messages.{to_send}
use node_chat_api.Http.RoomsRouter.{post_leave, delete_member, post_join}
use node_chat_api.Http.Mounts.{Packages, to_rooms}
use node_chat_api.Http.Mounts.Runs.{
  AppEvent, requested, connects, disconnects, sends, types, evicts, elapses, happen_all,
  happen_all-IsValid,
}

abbrev caller : ℕ → Caller
caller u = record { sub = u; username = "ann"; verified = true }

abbrev tab : Socket
tab = record { id = 70; user = caller 2 }

abbrev packages : Packages
packages = record { dashboard = λ q jobs. (200, jobs); swagger = none }

abbrev retry_after : ℕ → Key → demo.redis.State → String
retry_after now key s = "later"

abbrev engine : Text → (Message → Bool) → demo.messages.State → List Message
engine query p s = []

abbrev at_rest : Server
at_rest = record { world = start; user_sockets = []; channels = []; emitted = [] }

start-IsValid : IsValid start
start-IsValid j = ground arith

-- The owner leaves, the admin becomes owner, writes and kicks a member, and a request with a token that
-- has expired is refused.
abbrev events : List AppEvent
events =
    connects tab
    ∷ requested (some "10.0.0.1") (bearer (caller 1)) (to_rooms (post_leave 10))
    ∷ types tab (some 10)
    ∷ sends tab (to_send 40 1 10 (some (104 ∷ 105 ∷ [])))
    ∷ elapses 400
    ∷ requested (some "10.0.0.2") (bearer (caller 2)) (to_rooms (delete_member 10 3))
    ∷ requested (some "10.0.0.3") refused (to_rooms (post_join 10))
    ∷ disconnects tab []
    ∷ evicts
    ∷ []

happen_all-IsValid_example : IsValid (happen_all packages retry_after engine events at_rest).world
happen_all-IsValid_example =
    happen_all-IsValid packages retry_after engine events at_rest start-IsValid
