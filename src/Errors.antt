-- ===== src/Errors.antt =====
-- chain_adapter/src/lib/errors.ts: the error classes, each with its code, HTTP status and
-- `retryable` flag. `details` of a validation error only goes into the HTTP body and is left out.
use cryptokorr.Common.{ℕ, Text, codes, ◌++◌, Bool, true, false}

pub data AdapterError : Type 0 where
  validation_error : Text → AdapterError
  unsupported_error : Text → AdapterError
  execution_error : Text → Text → AdapterError
  callback_error : Text → AdapterError
  not_implemented_error : Text → AdapterError

unfoldable pub error_code : AdapterError → Text
error_code (validation_error message) = codes "validation_error"
error_code (unsupported_error message) = codes "unsupported"
error_code (execution_error c message) = c
error_code (callback_error message) = codes "callback_failed"
error_code (not_implemented_error feature) = codes "not_implemented"

unfoldable pub error_message : AdapterError → Text
error_message (validation_error message) = message
error_message (unsupported_error message) = message
error_message (execution_error c message) = message
error_message (callback_error message) = message
error_message (not_implemented_error feature) = feature ++ codes " is not yet implemented"

unfoldable pub status_code : AdapterError → ℕ
status_code (validation_error message) = 400
status_code (unsupported_error message) = 422
status_code (execution_error c message) = 502
status_code (callback_error message) = 502
status_code (not_implemented_error feature) = 501

unfoldable pub retryable : AdapterError → Bool
retryable (callback_error message) = true
retryable e = false
