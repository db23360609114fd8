-- ===== src/Api/Status.antt =====
-- The exception handler of src/app/main.py: the HTTP status of an `AppError`.
use grounded_ops_agent.Prelude.Equality.{text_beq}
use grounded_ops_agent.Core.Errors.{
  Error, app_error, config_error, validation_error, not_found, retrieval_error, embedding_mismatch,
  provider_error, tool_error, guardrail_error, key_error, value_error, type_error, assertion_error,
  external, code,
}
use grounded_ops_agent.Prelude.{
  ℕ, ◌≤◌, ◌≡◌, refl, Bool, true, false, Option, none, some, List, [], ◌∷◌, arith, ltb, Text, nat_eq,
  text_eq,
}
use grounded_ops_agent.Prelude.Dict.{lookup}
use grounded_ops_agent.Text.Chars.{codes}

unfoldable pub status_by_code : List (Text × ℕ)
status_by_code =
    (codes "validation_error", 400)
    ∷ (codes "not_found", 404)
    ∷ (codes "embedding_mismatch", 409)
    ∷ (codes "tool_error", 502)
    ∷ (codes "provider_error", 502)
    ∷ (codes "retrieval_error", 502)
    ∷ (codes "guardrail_error", 500)
    ∷ (codes "config_error", 500)
    ∷ []

-- `_STATUS_BY_CODE.get(exc.code, 500)`
unfoldable pub status_of_code : Text → ℕ
unfolding status_by_code
status_of_code name = elim (lookup name status_by_code) [ none ↦ 500 | some n ↦ n ]

-- `exc.message` of an `AppError`.
unfoldable pub message_of : Error → Text
message_of (app_error m) = m
message_of (config_error m) = m
message_of (validation_error m) = m
message_of (not_found m) = m
message_of (retrieval_error m) = m
message_of (embedding_mismatch m) = m
message_of (provider_error m) = m
message_of (tool_error m) = m
message_of (guardrail_error m) = m
message_of _ = []

pub record ErrorResponse : Type 0 where
  pub error : Text
  pub detail : Text
  pub request_id : Option Text

abbrev body_for : Option Text → Error → Text → ErrorResponse
body_for request_id e name = record { error = name; detail = message_of e; request_id = request_id }

-- The response to an `AppError`; `none` for any other exception, which the handler does not see.
unfoldable pub handle_app_error : (request_id : Option Text) → Error → Option (ℕ × ErrorResponse)
unfolding code status_of_code message_of
handle_app_error request_id e = elim (code e) [
  | none ↦ none
  | some name ↦ some (status_of_code name, body_for request_id e name)
]

-- The caller is at fault: the request is not valid, asks for something that is not there, or meets an
-- index of another model.
abbrev pub is_fault_of_caller : Error → Bool
is_fault_of_caller (validation_error m) = true
is_fault_of_caller (not_found m) = true
is_fault_of_caller (embedding_mismatch m) = true
is_fault_of_caller _ = false

-- The exceptions of src/app/core/errors.py, all below `AppError`.
abbrev pub is_app_error : Error → Bool
is_app_error key_error = false
is_app_error value_error = false
is_app_error type_error = false
is_app_error assertion_error = false
is_app_error (external m) = false
is_app_error _ = true

-- Every `AppError` is answered, with its code, its own message and the request id, and with a status
-- from 400 on that is below 500 exactly where the caller is at fault.
pub handle_app_error-is_fault_of_caller :
    (request_id : Option Text) (e : Error)
    → is_app_error e ≡ true
    → (http : ℕ) × (body : ErrorResponse) × (handle_app_error request_id e ≡ some (http, body))
      × (ltb http 500 ≡ is_fault_of_caller e)
      × (400 ≤ http)
      × (code e ≡ some body.error)
      × (body.detail ≡ message_of e)
      × (body.request_id ≡ request_id)
unfolding handle_app_error code status_of_code message_of text_beq lookup
handle_app_error-is_fault_of_caller request_id (app_error m) h =
    (500, _, refl, refl, omega arith, refl, refl, refl)
handle_app_error-is_fault_of_caller request_id (config_error m) h =
    (500, _, refl, refl, omega arith, refl, refl, refl)
handle_app_error-is_fault_of_caller request_id (validation_error m) h =
    (400, _, refl, refl, omega arith, refl, refl, refl)
handle_app_error-is_fault_of_caller request_id (not_found m) h =
    (404, _, refl, refl, omega arith, refl, refl, refl)
handle_app_error-is_fault_of_caller request_id (retrieval_error m) h =
    (502, _, refl, refl, omega arith, refl, refl, refl)
handle_app_error-is_fault_of_caller request_id (embedding_mismatch m) h =
    (409, _, refl, refl, omega arith, refl, refl, refl)
handle_app_error-is_fault_of_caller request_id (provider_error m) h =
    (502, _, refl, refl, omega arith, refl, refl, refl)
handle_app_error-is_fault_of_caller request_id (tool_error m) h =
    (502, _, refl, refl, omega arith, refl, refl, refl)
handle_app_error-is_fault_of_caller request_id (guardrail_error m) h =
    (500, _, refl, refl, omega arith, refl, refl, refl)
handle_app_error-is_fault_of_caller request_id key_error h = cc h
handle_app_error-is_fault_of_caller request_id value_error h = cc h
handle_app_error-is_fault_of_caller request_id type_error h = cc h
handle_app_error-is_fault_of_caller request_id assertion_error h = cc h
handle_app_error-is_fault_of_caller request_id (external m) h = cc h
