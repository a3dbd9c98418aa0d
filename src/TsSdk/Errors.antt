-- ===== src/TsSdk/Errors.antt =====
-- sdks/typescript/src/errors.ts: the classes of errors, and the choice of one.
pub mod Families
use cryptokorr.Common.{
  ℕ, zero, suc, ◌==◌, Text, codes, text_eq, begins_with, or_else, Bool, true, false, ◌||◌, Option,
  none, some, if◌then◌else◌,
}
use cryptokorr.TsSdk.Case.{Json, Fields, end_object, json_object}
use cryptokorr.TsSdk.Redaction.{redact_string}

pub data ErrorClass : Type 0 where
  api_error authentication_error authorization_error not_found_error validation_error : ErrorClass
  swap_safety_error morpho_safety_error conflict_error idempotency_conflict_error : ErrorClass
  wrong_state_error rate_limit_error service_unavailable_error workspace_paused_error : ErrorClass
  chain_paused_error upstream_error : ErrorClass

-- The class after `extends`.
unfoldable pub parent : ErrorClass → Option ErrorClass
parent api_error = none
parent authentication_error = some api_error
parent authorization_error = some api_error
parent not_found_error = some api_error
parent validation_error = some api_error
parent swap_safety_error = some validation_error
parent morpho_safety_error = some validation_error
parent conflict_error = some api_error
parent idempotency_conflict_error = some conflict_error
parent wrong_state_error = some conflict_error
parent rate_limit_error = some api_error
parent service_unavailable_error = some api_error
parent workspace_paused_error = some service_unavailable_error
parent chain_paused_error = some service_unavailable_error
parent upstream_error = some service_unavailable_error

unfoldable pub classify_error : ℕ → Text → ErrorClass
classify_error status code =
    if status == 401
    then authentication_error
    else if status == 403
    then authorization_error
    else if status == 404
    then not_found_error
    else if status == 409
    then if text_eq code (codes "idempotency_conflict")
      then idempotency_conflict_error
      else if text_eq code (codes "wrong_state") || text_eq code (codes "not_safe_to_abort")
      then wrong_state_error
      else conflict_error
    else if status == 422
    then if begins_with (codes "swap_") code
      then swap_safety_error
      else if begins_with (codes "morpho_") code
      then morpho_safety_error
      else validation_error
    else if status == 429
    then rate_limit_error
    else if status == 502 || status == 504
    then upstream_error
    else if status == 503
    then if text_eq code (codes "workspace_paused")
      then workspace_paused_error
      else if text_eq code (codes "chain_paused")
      then chain_paused_error
      else if text_eq code (codes "upstream_unavailable")
      then upstream_error
      else service_unavailable_error
    else api_error

-- `details` is any JSON value, as the wire may send it.
pub record ErrorEnvelope : Type 0 where
  pub code : Text
  pub message : Text
  pub hint : Option Text
  pub retryable : Bool
  pub details : Option Json

pub record ApiError : Type 0 where
  pub class : ErrorClass
  pub status : ℕ
  pub code : Text
  pub message : Text
  pub hint : Option Text
  pub retryable : Bool
  pub details : Json
  pub request_id : Option Text
  pub retry_after_seconds : Option ℕ

-- `decodeError`, with the constructor of `APIError`.
unfoldable pub decode_error : ℕ → ErrorEnvelope → Option Text → Option ℕ → ApiError
decode_error status envelope request_id retry_after_seconds = record {
  class = classify_error status envelope.code;
  status = status;
  code = envelope.code;
  message = redact_string envelope.message;
  hint = envelope.hint;
  retryable = envelope.retryable;
  details = or_else envelope.details (json_object end_object);
  request_id = request_id;
  retry_after_seconds = retry_after_seconds;
}
