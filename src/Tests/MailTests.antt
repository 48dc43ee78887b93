-- ===== src/Tests/MailTests.antt =====
-- Mails, and the history of a room over HTTP, on the state `start`.
use node_chat_api.Prelude.{
  ℕ, ◌≡◌, refl, none, some, [], ◌∷◌, true, false, arith, ◌==◌, if◌then◌else◌,
}
use node_chat_api.Text.{Text}
use node_chat_api.Action.{ok, err}
use node_chat_api.Backend.{Key, key_eq, user_ref, iso_time}
use node_chat_api.World.{World, Job, find_user}
use node_chat_api.Demo
use node_chat_api.Demo.{demo, start, hello}
use node_chat_api.Paginate.{nonneg}
use node_chat_api.Messages
use node_chat_api.Messages.{absent, to_message_response}
use node_chat_api.Auth.{forgot_password, register, verify_email, Session}
use node_chat_api.Auth.Mails.{invalid_token}
use node_chat_api.Unread.Counts.{unread_count}
use node_chat_api.Server.{Server, to_room, read_update}
use node_chat_api.Http.{reply_success}
use node_chat_api.Http.MessageController.{get_message_history}
use node_chat_api.Http.MessageController.Reading.{get_message_history_lem}
use node_chat_api.Worker.{verification_email, process_email}
use node_chat_api.Worker.Links.{forgot_password-process_email}
use node_chat_api.Worker.NewAccounts.{mail_job, account, verify_email-register}

abbrev asked : World
asked = (forgot_password 9 "Ann@x" "ann@x" start).1

forgot_password-process_email_example :
    (job : Job) × (asked.jobs ≡ job ∷ [])
    × (process_email job ≡ some (verification_email "Ann@x" 9))
    × (demo.redis.entry asked.redis (Key.pwd_reset 9)
        ≡ some (record { value = user_ref 1; expires = some 3601000 }))
    × ((verify_email (some 9) asked).0 ≡ err invalid_token)
forgot_password-process_email_example =
    forgot_password-process_email 9 "Ann@x" "ann@x" start (Demo.user 1 "ann" "ann@x") refl refl refl

abbrev secret_text : Text
secret_text = 1 ∷ 2 ∷ 3 ∷ []

abbrev joined : World
joined = (register 4 9 6 2 "dan" "Dan@x" secret_text start).1

abbrev session : Session
session = record {
  access_token = record { sub = 4; jti = 0; expires = 901 };
  refresh_token = record { sub = 4; jti = 6; expires = 604801 };
}

register_runs : (register 4 9 6 2 "dan" "Dan@x" secret_text start).0 ≡ ok session
unfolding register
register_runs = refl

verify_email-register_example :
    (joined.jobs ≡ mail_job "Dan@x" 9 ∷ [])
    × (process_email (mail_job "Dan@x" 9) ≡ some (verification_email "Dan@x" 9))
    × ((verify_email (some 9) (record joined { now = 86400999 })).0 ≡ ok tt)
    × ((v : ℕ)
        → find_user v (verify_email (some 9) (record joined { now = 86400999 })).1 ≡ (
            if 4 == v
            then some (record (account 4 2 "dan" "Dan@x" secret_text start) { verified = true })
            else find_user v start))
verify_email-register_example =
    verify_email-register 4 9 6 2 86399999 "dan" "Dan@x" secret_text start session register_runs
      (omega arith)

abbrev reader : Server
reader = record { world = start; user_sockets = []; channels = []; emitted = [] }

abbrev page : Messages.History
page = record { items = to_message_response hello ∷ []; next_cursor = none; has_more = false }

page_runs : Messages.get_message_history 10 absent (nonneg 5) start ≡ (ok page, start)
unfolding Messages.get_message_history
page_runs = refl

get_message_history_lem_example :
    let out = get_message_history 3 10 absent (nonneg 5) reader in
    (out.0 ≡ ok (reply_success page))
    × (unread_count 3 10 out.1.world ≡ 0)
    × (out.1.emitted ≡ (to_room 10, read_update 3 10 1000) ∷ [])
    × ((k : Key)
        → demo.redis.entry out.1.world.redis k ≡ (
            if key_eq (Key.last_read 3 10) k
            then some (record { value = iso_time 1000; expires = none })
            else if key_eq (Key.unread 3 10) k
            then none
            else demo.redis.entry [] k))
get_message_history_lem_example =
    get_message_history_lem 3 10 absent (nonneg 5) reader page page_runs
