-- ===== src/Http/AuthRouter/Confined.antt =====
-- The router of the accounts, beside the rooms, the messages and the presence.
use node_chat_api.Prelude.{
  ℕ, ◌≡◌, String, Option, none, some, Bool, true, false, arith, refl, inl, inr, ◌⊎◌,
}
use node_chat_api.Errors.{unauthorized}
use node_chat_api.Action.{err}
use node_chat_api.Action.Keeps.{Keeps, bind-Keeps}
use node_chat_api.Backend.{Key}
use node_chat_api.World.{Backend, World}
use node_chat_api.Auth.Confined.{
  chats, register-Keeps, login-Keeps, refresh-Keeps, verify_email-Keeps, logout-Keeps,
  resend_verification-Keeps, forgot_password-Keeps,
}
use node_chat_api.Auth.Reset.Confined.{reset_password-Keeps}
use node_chat_api.Middleware.{Caller, Header, malformed, refused, bearer, authenticate}
use node_chat_api.RateLimiter.{auth_limits, rate_limiter}
use node_chat_api.RateLimiter.Confined.{rate_limiter-Keeps}
use node_chat_api.Http.AuthController
use node_chat_api.Http.AuthController.Guards.{register_cases, login_cases}
use node_chat_api.Http.AuthRouter.{
  LimitedRequest, post_register, post_login, post_forgot_password, limited_handler, AuthRequest,
  limited, post_refresh, post_logout, get_verify_email, post_resend_verification,
  post_reset_password, auth_router,
}

module _ ⦃b : Backend⦄ where
  limited_handler-Keeps : (q : LimitedRequest) → Keeps chats (limited_handler q)
  unfolding limited_handler AuthController.forgot_password
  limited_handler-Keeps (post_register i t j salt username email password) = record {
    kept = λ w. elim (register_cases i t j salt username email password w) [
      | inl (x, e) ↦ ground (arith, e)
      | inr (name, address, secret, e) ↦
          ground (arith, e, (register-Keeps i t j salt name address secret).kept w)
    ];
  }
  limited_handler-Keeps (post_login t email password) = record {
    kept = λ w. elim (login_cases t email password w) [
      | inl (x, e) ↦ ground (arith, e)
      | inr (address, secret, e) ↦ ground (arith, e, (login-Keeps t address secret).kept w)
    ];
  }
  limited_handler-Keeps (post_forgot_password t none) = record { kept = λ w. refl }
  limited_handler-Keeps (post_forgot_password t (some (email, lowered))) = record {
    kept = λ w. ground (arith, (forgot_password-Keeps t email lowered).kept w);
  }

  -- The requests that pass without a token.
  abbrev pub is_open : AuthRequest → Bool
  is_open (post_logout refresh_token) = false
  is_open (post_resend_verification t) = false
  is_open _ = true

module _ ⦃b : Backend⦄ (retry_after : ℕ → Key → b.redis.State → String) where
  pub auth_router-Keeps :
      (ip : Option String) (header : Header) (q : AuthRequest)
      → Keeps chats (auth_router retry_after ip header q)
  unfolding auth_router AuthController.refresh AuthController.verify_email
      AuthController.reset_password AuthController.logout AuthController.resend_verification
      authenticate
  auth_router-Keeps ip header (limited q) =
      bind-Keeps chats (rate_limiter retry_after auth_limits ip) (λ u. limited_handler q)
        (rate_limiter-Keeps retry_after auth_limits ip) (λ u. limited_handler-Keeps q)
  auth_router-Keeps ip header (post_refresh t none) = record { kept = λ w. refl }
  auth_router-Keeps ip header (post_refresh t (some x)) = record {
    kept = λ w. ground (arith, (refresh-Keeps t x).kept w);
  }
  auth_router-Keeps ip malformed (post_logout token) = record { kept = λ w. refl }
  auth_router-Keeps ip refused (post_logout token) = record { kept = λ w. refl }
  auth_router-Keeps ip (bearer c) (post_logout none) = record { kept = λ w. refl }
  auth_router-Keeps ip (bearer c) (post_logout (some x)) = record {
    kept = λ w. ground (arith, (logout-Keeps x).kept w);
  }
  auth_router-Keeps ip header (get_verify_email t) = record {
    kept = λ w. ground (arith, (verify_email-Keeps t).kept w);
  }
  auth_router-Keeps ip malformed (post_resend_verification t) = record { kept = λ w. refl }
  auth_router-Keeps ip refused (post_resend_verification t) = record { kept = λ w. refl }
  auth_router-Keeps ip (bearer c) (post_resend_verification t) = record {
    kept = λ w. ground (arith, (resend_verification-Keeps t c.sub).kept w);
  }
  auth_router-Keeps ip header (post_reset_password fuel salt t p) = record {
    kept = λ w. ground (arith, (reset_password-Keeps fuel salt t p).kept w);
  }

  -- The others do not.
  pub auth_router-authenticates :
      (ip : Option String) (header : Header) (q : AuthRequest) (w : World)
      → is_open q ≡ false
      → ((c : Caller) × (header ≡ bearer c))
        ⊎ ((message : String) × (auth_router retry_after ip header q w
              ≡ (err (unauthorized message "UNAUTHORIZED"), w)))
  unfolding auth_router authenticate
  auth_router-authenticates ip (bearer c) q w e = inl (c, refl)
  auth_router-authenticates ip malformed (post_logout token) w e =
      inr ("Authorization header missing or malformed.", refl)
  auth_router-authenticates ip malformed (post_resend_verification t) w e =
      inr ("Authorization header missing or malformed.", refl)
  auth_router-authenticates ip refused (post_logout token) w e =
      inr ("Invalid or expired token.", refl)
  auth_router-authenticates ip refused (post_resend_verification t) w e =
      inr ("Invalid or expired token.", refl)
  auth_router-authenticates ip _ _ w e = absurd (ground arith)
