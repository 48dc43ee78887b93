-- ===== src/Tests/AuthTests.antt =====
-- The authentication service on the state `start`.
use node_chat_api.Prelude.{
  ℕ, ◌+◌, ◌≤◌, ◌≡◌, refl, none, some, [], ◌∷◌, true, length, arith, ◌==◌, if◌then◌else◌,
}
use node_chat_api.Text.{Text}
use node_chat_api.Action.{ok, err}
use node_chat_api.Backend.{Key, user_ref, number}
use node_chat_api.World.{World, find_user}
use node_chat_api.Demo.{demo, start, user, Signed}
use node_chat_api.Auth.{
  login, refresh, issue_refresh_token, validate_refresh_token, forgot_password,
}
use node_chat_api.Auth.Sessions.{not_accepted, validate_refresh_token-issue, refresh_twice}
use node_chat_api.Auth.Lockout.{IsLocked, tries, tries-IsLocked}
use node_chat_api.Auth.Lockout.Recovery.{IsGood, login-tries}
use node_chat_api.Http.AuthController
use node_chat_api.Auth.Mails.{forgot_password_uniform}
use node_chat_api.Auth.Reset.{reset_password}
use node_chat_api.Auth.Reset.Revocation.{reset_password_lem, session, scan_rounds}

abbrev right : Text
right = 1 ∷ 2 ∷ 3 ∷ 4 ∷ 5 ∷ 6 ∷ 7 ∷ 8 ∷ []

abbrev wrong : Text
wrong = 1 ∷ []

abbrev token : Signed
token = record { sub = 1; jti = 5; expires = 604801 }

-- User 1 after a login, with one session; and with a reset and a verification token.
abbrev signed_in : World
signed_in = record start {
  redis =
      (Key.refresh 1 5, record { value = user_ref 1; expires = some 604801 })
      ∷ (Key.refresh 2 6, record { value = user_ref 2; expires = some 604801 })
      ∷ (Key.pwd_reset 8, record { value = user_ref 1; expires = some 9000 })
      ∷ (Key.email_verify 9, record { value = user_ref 1; expires = some 9000 })
      ∷ [];
}

issue_runs : (issue_refresh_token 5 1 start).0 ≡ ok token
unfolding issue_refresh_token
issue_runs = refl

validate_refresh_token-issue_example :
    (validate_refresh_token token (record (issue_refresh_token 5 1 start).1 { now = 604800999 })).0
    ≡ ok (some (1, 5))
validate_refresh_token-issue_example =
    validate_refresh_token-issue 5 1 604799999 start token issue_runs

refresh_twice_example : (refresh 7 token (refresh 6 token signed_in).1).0 ≡ err not_accepted
refresh_twice_example =
    refresh_twice 6 7 token (record { sub = 1; jti = 5; is_refresh = true }) signed_in refl
      (omega arith)

abbrev locked : World
locked = record start {
  redis = (Key.login_locked 1, record { value = number 1; expires = some 5000 }) ∷ [];
}

tries-IsLocked_example :
    IsLocked 1
      (tries 6 "ann@x" ((1, wrong) ∷ (2, wrong) ∷ (3, wrong) ∷ (4, wrong) ∷ (5, wrong) ∷ []) start)
tries-IsLocked_example =
    tries-IsLocked 6 "ann@x" (user 1 "ann" "ann@x") 1 wrong
      ((2, wrong) ∷ (3, wrong) ∷ (4, wrong) ∷ (5, wrong) ∷ []) start refl refl refl
      (refl, (refl, (refl, (refl, (refl, tt))))) refl (omega arith)

forgot_password_uniform_example :
    ((forgot_password 6 "zed@x" "zed@x" start).0 ≡ ok tt)
    × (length (forgot_password 6 "zed@x" "zed@x" start).1.jobs ≤ 1)
forgot_password_uniform_example = forgot_password_uniform 6 "zed@x" "zed@x" start

one_round :
    scan_rounds 1 (record signed_in { redis = demo.redis.del (Key.pwd_reset 8) signed_in.redis })
    ≤ 3
unfolding scan_rounds
one_round = omega arith

reset_password_lem_example :
    let (r, w) = reset_password 3 0 (some 8) right signed_in in
    (r ≡ ok (some tt))
    × (find_user 1 w ≡ some (record (user 1 "ann" "ann@x") { password_hash = "xxxxxxxx" }))
    × ((v t : ℕ) → session v t w ≡ (if v == 1 then none else session v t signed_in))
reset_password_lem_example =
    reset_password_lem 3 0 8 1 right (user 1 "ann" "ann@x") signed_in refl refl (omega arith)
      one_round

login-tries_example :
    let w' =
      tries 6 "ann@x"
        ((1, wrong) ∷ (2, wrong) ∷ (3, wrong) ∷ (4, wrong) ∷ (5, wrong) ∷ (6, right) ∷ [])
        start in
    IsGood 7 1 (login 7 "ann@x" right (record w' { now = w'.now + 900000 }))
login-tries_example =
    login-tries 6 7 "ann@x" (user 1 "ann" "ann@x")
      ((1, wrong) ∷ (2, wrong) ∷ (3, wrong) ∷ (4, wrong) ∷ (5, wrong) ∷ (6, right) ∷ []) right
      900000 start refl (λ later late. refl) refl (omega arith)
