-- ===== src/Tests/Sdk.antt =====
-- sdks/typescript/src, run against a server that is busy once.
use cryptokorr.Common.{
  ℕ, ◌+◌, ◌*◌, ◌≤◌, ◌≡◌, refl, Text, codes, replace_all, replace_from, begins_with, text_eq,
  is_space, to_lower, upper_code, true, false, Option, some, none, [], ◌∷◌, arith, suc,
}
use cryptokorr.TsSdk.Case.{
  Json, json_bool, json_string, json_object, end_object, field, to_camel_deep, to_snake_deep,
  snake_key, camel_key, split_words,
}
use cryptokorr.TsSdk.Case.Keys.{IsSnakeKey, snake, done, same_word, next_word}
use cryptokorr.TsSdk.Case.RoundTrip.{
  IsWire, wire_object, wire_field, wire_empty, wire_string, to_snake_deep-to_camel_deep,
}
use cryptokorr.TsSdk.Redaction.{redact_string, match_api_key, longest_key}
use cryptokorr.TsSdk.Errors.{classify_error, validation_error}
use cryptokorr.TsSdk.Errors.Families.{is_instance, stands_for, classify_error-family}
use cryptokorr.TsSdk.Wire.{
  http_get, http_post, RequestOptions, ResolvedConfig, Response, responded, fetched, slept, Log,
  SdkEnv, End, is_write, extract_envelope, read_body, envelope_of, parse_retry_after,
  parse_nonnegative,
}
use cryptokorr.TsSdk.Config.{ClientConfig, accepted, resolve_config, strip_slashes}
use cryptokorr.TsSdk.Config.Joined.{IsUsable, resolve_config-IsUsable}
use cryptokorr.TsSdk.Transport.{request, settle_fetch, backoff_delay, build_request, budget_of}
use cryptokorr.TsSdk.Client.Polling.{wait_for_decision}
use cryptokorr.TsSdk.Client.Polling.Deadline.{EndsWithin, wait_for_decision-ends}
use cryptokorr.TsSdk.Transport.Idempotency.{request-once}
use cryptokorr.TsSdk.Transport.Termination.{IsClock, total_sleep, request-ends, request-total_sleep}

abbrev now_of : Log → ℕ
now_of [] = 1000
now_of (fetched r ∷ log) = now_of log + 1
now_of (slept d ∷ log) = now_of log + d

abbrev busy : Json
busy = json_object (
    field (codes "error") (json_object (field (codes "retryable") (json_bool true) end_object))
      end_object)

abbrev answer : Log → Response
answer [] = record {
  is_ok = false;
  status = 503;
  body = codes "busy";
  request_id = none;
  retry_after = some (codes "0");
}
answer (e ∷ log) = record {
  is_ok = true;
  status = 200;
  body = codes "null";
  request_id = none;
  retry_after = none;
}

abbrev sdk_env : SdkEnv
sdk_env = record {
  fetch = λ log r. responded (answer log);
  now = now_of;
  uuid = some (codes "key");
  random = λ n. codes "0.5";
  json_parse = λ s. some busy;
  json_stringify = λ j. codes "{}";
  encode_query = λ q. [];
}

clock : IsClock now_of 1
clock = record {
  monotone = λ r log. omega arith;
  sleeps = λ d log. omega arith;
  progress = λ r d log. omega arith;
}

abbrev cfg : ResolvedConfig
cfg = record {
  api_key = codes "cb_0123456789abcdef";
  base_url = codes "http://h";
  timeout_ms = 100;
  user_agent = codes "sdk";
}

abbrev post : RequestOptions
post = record {
  method = http_post;
  path = codes "/v1/intents";
  body = some busy;
  query = none;
  idempotency_key = none;
  unauthenticated = false;
  timeout_ms = none;
  retry_budget_ms = none;
}

budget : budget_of sdk_env cfg post ≤ 1 * 400
unfolding budget_of
budget = omega arith

request-ends_example : (result : End × Log) × (request sdk_env cfg (suc 400) post [] ≡ some result)
request-ends_example = request-ends sdk_env cfg post 1 clock [] 400 budget

-- The result of that very run.
abbrev outcome : End × Log
outcome = (request-ends sdk_env cfg post 1 clock [] 400 budget).0

request-total_sleep_example : total_sleep outcome.1 ≤ budget_of sdk_env cfg post
request-total_sleep_example =
    request-total_sleep sdk_env cfg post 1 clock 401 outcome
      (request-ends sdk_env cfg post 1 clock [] 400 budget).1

-- A POST under /v1/security is retried like any other: here the server is busy once.
abbrev security_post : RequestOptions
security_post = record post { path = codes "/v1/security/pause" }

abbrev log_of : Option (End × Log) → Log
log_of none = []
log_of (some result) = result.1

security_retried :
    log_of (request sdk_env cfg 2 security_post [])
    ≡ fetched (build_request sdk_env cfg security_post (some (codes "key")))
      ∷ slept 0
      ∷ fetched (build_request sdk_env cfg security_post (some (codes "key")))
      ∷ []
unfolding request settle_fetch extract_envelope read_body text_eq envelope_of backoff_delay
    parse_retry_after parse_nonnegative is_space
security_retried = refl

abbrev get : RequestOptions
get = record post { method = http_get; body = none }

read_only : is_write http_get ≡ false
unfolding is_write
read_only = refl

request-once_example :
    (end : End) × (request sdk_env cfg 1 get []
      ≡ some (end, fetched (build_request sdk_env cfg get none) ∷ []))
request-once_example = request-once sdk_env cfg get 0 [] read_only

classify_error-family_example :
    is_instance 2 (classify_error 422 (codes "swap_slippage")) validation_error
    ≡ stands_for validation_error 422 (codes "swap_slippage")
classify_error-family_example = classify_error-family 422 (codes "swap_slippage") validation_error

abbrev chain_key : Text
chain_key = codes "tx_id"

chain_key-IsSnakeKey : IsSnakeKey chain_key
chain_key-IsSnakeKey =
    snake b't' (codes "x_id") refl
      (same_word b'x' (codes "_id") refl (next_word b'i' b'd' [] refl refl done))

abbrev wire_body : Json
wire_body = json_object (field chain_key (json_string (codes "base")) end_object)

wire_body-IsWire : IsWire wire_body
wire_body-IsWire =
    wire_object _ (tt, tt)
      (wire_field chain_key (json_string (codes "base")) end_object chain_key-IsSnakeKey
        (wire_string (codes "base")) wire_empty)

to_snake_deep-to_camel_deep_example : to_snake_deep (to_camel_deep wire_body) ≡ wire_body
to_snake_deep-to_camel_deep_example = to_snake_deep-to_camel_deep wire_body wire_body-IsWire

-- An inner word of one letter does not survive.
one_letter : snake_key (camel_key (codes "a_b_c")) ≡ codes "a_bc"
unfolding snake_key camel_key to_lower split_words upper_code
one_letter = refl

key_redacted :
    redact_string (codes "Bearer cb_0123456789abcdef-, _cb_0123456789abcdef")
    ≡ codes "Bearer [REDACTED]-, _cb_0123456789abcdef"
unfolding redact_string replace_all replace_from match_api_key longest_key begins_with
key_redacted = refl

abbrev client_config : ClientConfig
client_config = record {
  api_key = codes "cb_0123456789abcdef";
  base_url = some (codes "http://h//");
  timeout_ms = some 100;
  user_agent = some (codes "sdk");
}

resolved : resolve_config client_config ≡ accepted cfg
unfolding resolve_config strip_slashes begins_with
resolved = refl

resolve_config-IsUsable_example : IsUsable cfg
resolve_config-IsUsable_example = resolve_config-IsUsable client_config cfg resolved

wait_for_decision-ends_example :
    EndsWithin 1001 [] (wait_for_decision sdk_env cfg (λ s. s) (codes "i1") 1 1001 (some 1) none [])
wait_for_decision-ends_example =
    wait_for_decision-ends sdk_env cfg (λ s. s) (codes "i1") 0 1 clock 1000 (some 1) none []
      (omega arith)
