-- ===== src/Http/AuthController/Guards.antt =====
-- The guards of the controllers of authController.js: a request is refused, or comes to the service.
use node_chat_api.Prelude.{
  ℕ, ◌≡◌, ◌⊎◌, inl, inr, String, Option, arith, Option-cases, Bool-cases, ltb, length,
}
use node_chat_api.Text.{Text}
use node_chat_api.Errors.{invalid}
use node_chat_api.Action.{err, pure, ◌>>=◌}
use node_chat_api.World.{Backend, World}
use node_chat_api.Auth
use node_chat_api.Http.{reply_success, reply_created}
use node_chat_api.Http.AuthController.{given, given_text, register, login}

module _ ⦃b : Backend⦄ where
  pub register_cases :
      (i t j salt : ℕ) (username email : Option String) (password : Option Text) (w : World)
      → ((x : String) × (register i t j salt username email password w ≡ (err (invalid x), w)))
        ⊎ ((name : String) × (address : String) × (secret : Text) × (register i t j salt username
                email password w
              ≡ (Auth.register i t j salt name address secret >>= λ r. pure (reply_created r)) w))
  unfolding register
  register_cases i t j salt username email password w = elim (Option-cases (given username)) [
    | inl e ↦ inl ("username, email, and password are required.", ground (arith, e))
    | inr (name, e) ↦ elim (Option-cases (given email)) [
      | inl f ↦ inl ("username, email, and password are required.", ground (arith, e, f))
      | inr (address, f) ↦ elim (Option-cases (given_text password)) [
        | inl g ↦ inl ("username, email, and password are required.", ground (arith, e, f, g))
        | inr (secret, g) ↦ elim (Bool-cases (ltb (length secret) 8)) [
          | inl short ↦
              inl ("Password must be at least 8 characters.", ground (arith, e, f, g, short))
          | inr long ↦ inr (name, address, secret, ground (arith, e, f, g, long))
        ]
      ]
    ]
  ]

  pub login_cases :
      (t : ℕ) (email : Option String) (password : Option Text) (w : World)
      → ((x : String) × (login t email password w ≡ (err (invalid x), w)))
        ⊎ ((address : String) × (secret : Text) × (login t email password w
              ≡ (Auth.login t address secret >>= λ r. pure (reply_success r)) w))
  unfolding login
  login_cases t email password w = elim (Option-cases (given email)) [
    | inl e ↦ inl ("email and password are required.", ground (arith, e))
    | inr (address, e) ↦ elim (Option-cases (given_text password)) [
      | inl f ↦ inl ("email and password are required.", ground (arith, e, f))
      | inr (secret, f) ↦ inr (address, secret, ground (arith, e, f))
    ]
  ]
