-- ===== src/Http.antt =====
-- utils/ApiResponse.js, middleware/errorHandler.js, and what both make of a controller's result.
pub mod AuthController
pub mod RoomController
pub mod MessageController
pub mod UserController
pub mod AuthRouter
pub mod RoomsRouter
pub mod UsersRouter
pub mod HealthController
pub mod App
pub mod Mounts
use node_chat_api.Prelude.{ℕ, String, Option, none, some, Bool, true, false}
use node_chat_api.Errors.{
  AppError, Error, app, coded, duplicate_key, reference_error, type_error, schema_error,
}
use node_chat_api.Action.{Action, Result, ok, err}

-- `error` of a response: its message, and its code unless that is undefined.
pub record ErrorBody : Type 0 where
  pub message : String
  pub code : Option String

pub record ApiResponse (A : Type 0) : Type 0 where
  pub success : Bool
  pub status_code : Option ℕ
  pub content : Option A
  pub error : Option ErrorBody

-- The HTTP status and the JSON that is sent, if any.
pub record Reply (A : Type 0) : Type 0 where
  pub status : ℕ
  pub body : Option (ApiResponse A)

module _ {A : Type 0} where
  abbrev pub success : A → ApiResponse A
  success a = record { success = true; status_code = some 200; content = some a; error = none }

  abbrev pub created : A → ApiResponse A
  created a = record { success = true; status_code = some 201; content = some a; error = none }

  abbrev pub failure : String → Option String → Option ℕ → ApiResponse A
  failure message code status_code = record {
    success = false;
    status_code = status_code;
    content = none;
    error = some (record { message = message; code = code });
  }

  -- `res.json(ApiResponse.success(a))`, `res.status(201).json(ApiResponse.created(a))`
  abbrev pub reply_success : A → Reply A
  reply_success a = record { status = 200; body = some (success a) }

  abbrev pub reply_created : A → Reply A
  reply_created a = record { status = 201; body = some (created a) }

  abbrev pub internal_error : Reply A
  internal_error = record { status = 500; body = some (failure "Internal server error." none none) }

  -- `taken_text` is the text about the field that the driver's error names. The two last arguments of
  -- the call for other errors go to `json`, which does not use them.
  pub error_handler : String → Error → Reply A
  error_handler taken_text (app e) = record {
    status = e.status_code;
    body = some (failure e.message (some e.code) (some e.status_code));
  }
  error_handler taken_text duplicate_key = record {
    status = 409;
    body = some (failure taken_text (some "ALREADY_EXISTS") (some 409));
  }
  error_handler taken_text (coded code) = internal_error
  error_handler taken_text (reference_error name) = internal_error
  error_handler taken_text type_error = internal_error
  error_handler taken_text schema_error = internal_error

  -- A request: what the handlers throw goes to the error handler.
  pub answer : String → Result (Reply A) → Reply A
  unfolding error_handler
  answer taken_text (ok reply) = reply
  answer taken_text (err e) = error_handler taken_text e

pub respond : {S A : Type 0} → String → Action S (Reply A) → S → Reply A × S
unfolding answer
respond taken_text m s = let (r, s') = m s in (answer taken_text r, s')
