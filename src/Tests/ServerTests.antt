-- ===== src/Tests/ServerTests.antt =====
-- The socket server, its limiter, presence and the mails on the state `start`.
use node_chat_api.Prelude.{ℕ, ◌≡◌, refl, none, some, [], ◌∷◌, true, false, arith}
use node_chat_api.Text.{Text}
use node_chat_api.Action.{ok}
use node_chat_api.Backend.{online_users, presence, user}
use node_chat_api.World.{World}
use node_chat_api.Demo.{demo, start, general, hello}
use node_chat_api.MessageLimit.{check_message_rate_limit}
use node_chat_api.MessageLimit.Log.{Log, AllNew, answers, log_answers, answers-eq-log_answers}
use node_chat_api.Presence.{is_online, get_room_presence, evict_stale_users}
use node_chat_api.Presence.Eviction.{holds, get_room_presence-evict_stale_users}
use node_chat_api.Server.{Socket, Server}
use node_chat_api.Server.Messages.{to_send, handle, message_send}
use node_chat_api.Server.Messages.Wrapped.{Answered}
use node_chat_api.Server.Messages.Answers.{handle-Answered}
use node_chat_api.Server.Messages.Sending.{Outcome, sent, verdict, message_send_lem}
use node_chat_api.Server.Connections.{has_user, connected, disconnected}
use node_chat_api.Server.Connections.Open.{is_open}
use node_chat_api.Server.Connections.Tabs.{is_held}
use node_chat_api.Server.Connections.Online.{online_set}
use node_chat_api.Server.Connections.Runs.{
  starts, connects, disconnects, requests, elapses, Run-connections,
}
use node_chat_api.Server.Connections.Shown.{is_online-connected}

-- Thirty-one messages within a minute, of which the last is refused; one a millisecond before the first
-- has left the window, refused too; and one when the refused ones still count.
abbrev busy : Log
busy =
    (1, 0)
    ∷ (0, 1)
    ∷ (0, 2)
    ∷ (0, 3)
    ∷ (0, 4)
    ∷ (0, 5)
    ∷ (0, 6)
    ∷ (0, 7)
    ∷ (0, 8)
    ∷ (0, 9)
    ∷ (0, 10)
    ∷ (0, 11)
    ∷ (0, 12)
    ∷ (0, 13)
    ∷ (0, 14)
    ∷ (0, 15)
    ∷ (0, 16)
    ∷ (0, 17)
    ∷ (0, 18)
    ∷ (0, 19)
    ∷ (0, 20)
    ∷ (0, 21)
    ∷ (0, 22)
    ∷ (0, 23)
    ∷ (0, 24)
    ∷ (0, 25)
    ∷ (0, 26)
    ∷ (0, 27)
    ∷ (0, 28)
    ∷ (0, 29)
    ∷ (0, 30)
    ∷ (59999, 31)
    ∷ (1, 32)
    ∷ []

busy_new : AllNew [] busy
busy_new = (
  refl,
  (
    refl,
    (
      refl,
      (
        refl,
        (
          refl,
          (
            refl,
            (
              refl,
              (
                refl,
                (
                  refl,
                  (
                    refl,
                    (
                      refl,
                      (
                        refl,
                        (
                          refl,
                          (
                            refl,
                            (
                              refl,
                              (
                                refl,
                                (
                                  refl,
                                  (
                                    refl,
                                    (
                                      refl,
                                      (
                                        refl,
                                        (
                                          refl,
                                          (
                                            refl,
                                            (
                                              refl,
                                              (
                                                refl,
                                                (
                                                  refl,
                                                  (
                                                    refl,
                                                    (
                                                      refl,
                                                      (
                                                        refl,
                                                        (refl, (refl, (refl, (refl, (refl, tt))))),
                                                      ),
                                                    ),
                                                  ),
                                                ),
                                              ),
                                            ),
                                          ),
                                        ),
                                      ),
                                    ),
                                  ),
                                ),
                              ),
                            ),
                          ),
                        ),
                      ),
                    ),
                  ),
                ),
              ),
            ),
          ),
        ),
      ),
    ),
  ),
)

busy_answers :
    log_answers 1000 [] busy
    ≡ true ∷ true ∷ true ∷ true ∷ true ∷ true ∷ true ∷ true ∷ true ∷ true ∷ true ∷ true ∷ true
      ∷ true ∷ true ∷ true ∷ true ∷ true ∷ true ∷ true ∷ true ∷ true ∷ true ∷ true ∷ true ∷ true
      ∷ true ∷ true ∷ true ∷ true ∷ false ∷ false ∷ true ∷ []
unfolding log_answers
busy_answers = refl

answers-eq-log_answers_example : answers 1 busy start ≡ log_answers 1000 [] busy
answers-eq-log_answers_example = answers-eq-log_answers 1 busy start refl busy_new

-- User 1 is fresh in `online:users` and user 2 is stale, five minutes and one millisecond later.
abbrev evening : World
evening = record start {
  now = 301000;
  sets =
      (online_users, record { items = (user 2, 900) ∷ (user 1, 300000) ∷ []; expires = none })
      ∷ (presence 10, record { items = (user 2, 900) ∷ (user 1, 300000) ∷ []; expires = none })
      ∷ [];
}

get_room_presence-evict_stale_users_example :
    (get_room_presence 10 (record (evict_stale_users evening).1 { now = 301001 })).0
    ≡ (get_room_presence 10 (record evening { now = 301001 })).0
get_room_presence-evict_stale_users_example =
    get_room_presence-evict_stale_users 10 301001 evening (refl, (refl, tt)) (omega arith)

abbrev tab : ℕ → Socket
tab i = record { id = i; user = record { sub = 1; username = "ann"; verified = true } }

abbrev idle : Server
idle = record { world = start; user_sockets = []; channels = []; emitted = [] }

abbrev hi : Text
hi = 32 ∷ 104 ∷ 105 ∷ []

handle-Answered_example : Answered (tab 7) idle (handle (tab 7) (to_send 21 3 10 (some hi)) idle)
handle-Answered_example = handle-Answered (tab 7) (to_send 21 3 10 (some hi)) idle

limit_allows : (check_message_rate_limit 3 1 start).0 ≡ ok true
unfolding check_message_rate_limit
limit_allows = refl

message_send_lem_example :
    Outcome
      (tab 7)
      21
      10
      hi
      idle
      (message_send 21 3 (tab 7) 10 (some hi) idle).1
      ((21, sent 21 10 (tab 7).user hi 1000) ∷ (20, hello) ∷ [])
      general
      (verdict hi (tab 7).user true (some general))
message_send_lem_example =
    message_send_lem (tab 7) 21 3 10 hi true idle general
      ((21, sent 21 10 (tab 7).user hi 1000) ∷ (20, hello) ∷ []) limit_allows refl
      (refl, (refl, (refl, tt))) refl

-- User 1 opens two tabs, sends a message in the second, and closes the first.
abbrev one_tab : Server
one_tab = (connected (tab 7) idle).1

abbrev two_tabs : Server
two_tabs = (connected (tab 8) (record one_tab { world = record one_tab.world { now = 2000 } })).1

abbrev tab_closed : Server
tab_closed =
    (disconnected (tab 7) (10 ∷ []) (handle (tab 8) (to_send 21 3 10 (some hi)) two_tabs).1).1

Run-connections_example :
    (has_user 1 tab_closed.user_sockets ≡ true)
    × ((j : ℕ) → is_held 1 j tab_closed.user_sockets ≡ is_open 1 j ((1, 8) ∷ []))
    × (holds (user 1) (online_set tab_closed).items ≡ true)
Run-connections_example =
    Run-connections idle tab_closed ((1, 8) ∷ []) refl refl
      (disconnects (tab 7) (10 ∷ []) (
        requests (tab 8) (to_send 21 3 10 (some hi))
          (connects (tab 8) (elapses 2000 (connects (tab 7) starts)))))
      1

is_online-connected_example :
    (has_user 1 one_tab.user_sockets ≡ true)
    × (is_online 1 (record one_tab.world { now = 301001 }) ≡ false)
is_online-connected_example = is_online-connected (tab 7) idle 301001 refl
