-- ===== src/Tests/HearingTests.antt =====
-- A message on its way to another user's socket.
use node_chat_api.Prelude.{ℕ, String, List, Bool, ◌≡◌, ◌++◌, some, none, [], ◌∷◌, true, refl}
use node_chat_api.Text.{Text, trim}
use node_chat_api.Action.{ok}
use node_chat_api.World.{find_room}
use node_chat_api.Demo.{demo, start, general}
use node_chat_api.Messages.{to_message_response}
use node_chat_api.MessageLimit.{check_message_rate_limit}
use node_chat_api.Presence.{mark_online, join_presence}
use node_chat_api.Unread.{get_unread_counts}
use node_chat_api.Server.{Socket, Server, to_room, message_new}
use node_chat_api.Server.Messages.{message_send}
use node_chat_api.Server.Messages.Sending.{sent, verdict}
use node_chat_api.Server.Connections.{connected}
use node_chat_api.Server.Connections.Hearing.{hears}
use node_chat_api.Middleware.{bearer, authenticate, require_member, require_room_role}
use node_chat_api.Members.{without_member}
use node_chat_api.Models.{Room, Message}
use node_chat_api.Backend.{Key}
use node_chat_api.Rooms.{kick_member}
use node_chat_api.Http.RoomController
use node_chat_api.Http.RoomsRouter.{delete_member, gate, room_handler, rooms_router}
use node_chat_api.Http.Mounts.{Packages, to_rooms, mounted, serve_request}
use node_chat_api.Http.Mounts.Runs.{AppEvent, requested, happen, happen_all}
use node_chat_api.Http.Mounts.Hearing.{message_send-connected}

abbrev cyd : Socket
cyd = record { id = 7; user = record { sub = 3; username = "cyd"; verified = true } }

abbrev bob : Socket
bob = record { id = 8; user = record { sub = 2; username = "bob"; verified = true } }

abbrev idle : Server
idle = record { world = start; user_sockets = []; channels = []; emitted = [] }

abbrev packages : Packages
packages = record { dashboard = λ q jobs. (200, jobs); swagger = none }

abbrev retry_after : ℕ → Key → demo.redis.State → String
retry_after now key s = "later"

abbrev engine : Text → (Message → Bool) → demo.messages.State → List Message
engine query p s = []

-- The admin kicks the user from the room.
abbrev kick : AppEvent
kick = requested (some "10.0.0.1") (bearer bob.user) (to_rooms (delete_member 10 3))

abbrev after : Server
after = happen_all packages retry_after engine (kick ∷ []) (connected cyd idle).1

abbrev without : Room
without = record general { members = without_member 3 general.members }

abbrev hi : Text
hi = 32 ∷ 104 ∷ 105 ∷ []

limit_allows : (check_message_rate_limit 3 2 after.world).0 ≡ ok true
unfolding happen_all happen serve_request mounted rooms_router authenticate gate require_member
    require_room_role room_handler RoomController.kick_member kick_member connected mark_online
    join_presence get_unread_counts check_message_rate_limit
limit_allows = refl

kicked : find_room 10 after.world ≡ some without
unfolding happen_all happen serve_request mounted rooms_router authenticate gate require_member
    require_room_role room_handler RoomController.kick_member kick_member connected mark_online
    join_presence get_unread_counts
kicked = refl

id_is_free :
    demo.messages.create 21 (sent 21 10 bob.user hi after.world.now) after.world.messages
    ≡ some ((21, sent 21 10 bob.user hi after.world.now) ∷ after.world.messages)
unfolding happen_all happen serve_request mounted rooms_router authenticate gate require_member
    require_room_role room_handler RoomController.kick_member kick_member connected mark_online
    join_presence get_unread_counts
id_is_free = refl

accepted : verdict hi bob.user true (some without) ≡ none
unfolding verdict trim
accepted = refl

message_send-connected_example :
    let out = (message_send 21 3 bob 10 (some hi) after).1 in
    (out.emitted
      ≡ after.emitted
        ++ (to_room 10, message_new (to_message_response (sent 21 10 bob.user hi after.world.now)))
          ∷ [])
    × (hears 7 (to_room 10) out.channels ≡ true)
message_send-connected_example =
    message_send-connected packages retry_after engine cyd bob 21 3 10 hi true idle (kick ∷ [])
      general without ((21, sent 21 10 bob.user hi after.world.now) ∷ after.world.messages) refl
      refl refl limit_allows kicked id_is_free accepted
