-- ===== src/Errors.antt =====
-- errors/AppError.js: the error classes of the application, and what else a handler may throw.
use node_chat_api.Prelude.{ℕ, String}

-- `AppError`: its message, HTTP status and code.
pub record AppError : Type 0 where
  pub message : String
  pub status_code : ℕ
  pub code : String

-- Everything that the code throws: an `AppError`, a plain `Error` that was given a `code`, MongoDB's
-- duplicate-key error (code 11000), the `ReferenceError` of a name that is not in scope, and the
-- `TypeError` of a property read on `undefined`, and the refusal of a document or an
-- update by Mongoose or MongoDB.
pub data Error : Type 0 where
  app : AppError → Error
  coded : String → Error
  duplicate_key : Error
  reference_error : String → Error
  type_error : Error
  schema_error : Error

abbrev pub not_found : String → String → Error
not_found message code = app (record { message = message; status_code = 404; code = code })

abbrev pub validation : String → String → Error
validation message code = app (record { message = message; status_code = 422; code = code })

-- The default code of `ValidationError`.
abbrev pub invalid : String → Error
invalid message = validation message "VALIDATION_ERROR"

abbrev pub conflict : String → String → Error
conflict message code = app (record { message = message; status_code = 409; code = code })

abbrev pub unauthorized : String → String → Error
unauthorized message code = app (record { message = message; status_code = 401; code = code })

abbrev pub too_many_requests : String → String → Error
too_many_requests message code = app (record { message = message; status_code = 429; code = code })

abbrev pub forbidden : String → String → Error
forbidden message code = app (record { message = message; status_code = 403; code = code })

abbrev pub locked : String → String → Error
locked message code = app (record { message = message; status_code = 423; code = code })
