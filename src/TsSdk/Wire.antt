-- ===== src/TsSdk/Wire.antt =====
-- sdks/typescript/src/transport.ts: how a request is made up and an answer is read. `fetch`, the clock, the
-- random numbers, `JSON` and `URLSearchParams` are `SdkEnv`, whose answers may depend on all that
-- happened before, newest first. Times are whole milliseconds. `sleep` is called without a signal, and
-- then always ends.
use cryptokorr.Common.{
  parse_int, not_negative, ℕ, Text, codes, text_eq, begins_with, nonempty, to_string, leb, Bool,
  true, false, Option, none, some, List, [], ◌∷◌, ◌++◌, if◌then◌else◌, take, drop,
}
use cryptokorr.TsSdk.Case.{
  Json, json_null, json_bool, json_number, json_string, json_array, json_object, Fields, end_object,
  field,
}
use cryptokorr.TsSdk.Errors.{ErrorEnvelope, ApiError}

pub data HttpMethod : Type 0 where
  http_get http_post http_put http_patch http_delete : HttpMethod

-- `WRITE_METHODS`
unfoldable pub is_write : HttpMethod → Bool
is_write http_get = false
is_write http_post = true
is_write http_put = true
is_write http_patch = true
is_write http_delete = true

-- The body is neither null nor undefined where it is there, and the query holds the parameters whose
-- value is neither.
pub record RequestOptions : Type 0 where
  pub method : HttpMethod
  pub path : Text
  pub body : Option Json
  pub query : Option (List (Text × Text))
  pub idempotency_key : Option Text
  pub unauthenticated : Bool
  pub timeout_ms : Option ℕ
  pub retry_budget_ms : Option ℕ

pub record ResolvedConfig : Type 0 where
  pub api_key : Text
  pub base_url : Text
  pub timeout_ms : ℕ
  pub user_agent : Text

pub record Request : Type 0 where
  pub method : HttpMethod
  pub url : Text
  pub headers : List (Text × Text)
  pub body : Option Text

-- The response, with its text and two of its headers.
pub record Response : Type 0 where
  pub is_ok : Bool
  pub status : ℕ
  pub body : Text
  pub request_id : Option Text
  pub retry_after : Option Text

-- A rejection is the error's name and message.
pub data Fetched : Type 0 where
  responded : Response → Fetched
  failed : Text → Text → Fetched

pub data SdkEvent : Type 0 where
  fetched : Request → SdkEvent
  slept : ℕ → SdkEvent

abbrev pub Log : Type 0
Log = List SdkEvent

pub record SdkEnv : Type 0 where
  pub fetch : Log → Request → Fetched
  pub now : Log → ℕ
  pub uuid : Option Text
  pub random : ℕ → Text
  pub json_parse : Text → Option Json
  pub json_stringify : Json → Text
  pub encode_query : List (Text × Text) → Text

pub data Failure : Type 0 where
  plain_error : Text → Failure
  api_failure : ApiError → Failure

pub data End : Type 0 where
  returned : Json → End
  rejected : Failure → End

abbrev pub initial_backoff_ms : ℕ
initial_backoff_ms = 250

abbrev pub max_backoff_ms : ℕ
max_backoff_ms = 30000

abbrev pub retry_budget_multiplier : ℕ
retry_budget_multiplier = 4

abbrev pub min : ℕ → ℕ → ℕ
min a b = if leb a b then a else b

-- `Math.random().toString(36)` is `random`, one for each call.
unfoldable pub new_idempotency_key : SdkEnv → Log → Text
unfolding to_string
new_idempotency_key env log = elim env.uuid [
  | some key ↦ key
  | none ↦
      to_string 36 (env.now log)
      ++ codes "-"
      ++ take 8 (drop 2 (env.random 0))
      ++ codes "-"
      ++ take 8 (drop 2 (env.random 1))
]

unfoldable pub build_url : SdkEnv → Text → Text → Option (List (Text × Text)) → Text
build_url env base_url path query =
    let trimmed_path = if begins_with (codes "/") path then path else codes "/" ++ path in
    elim query [
      | none ↦ base_url ++ trimmed_path
      | some params ↦
          let qs = env.encode_query params in
          if nonempty qs
          then base_url ++ trimmed_path ++ codes "?" ++ qs
          else base_url ++ trimmed_path
    ]

-- `Number.parseInt(s, 10)`, if it is not negative.
unfoldable pub parse_nonnegative : Text → Option ℕ
unfolding parse_int
parse_nonnegative s = not_negative (parse_int s)

unfoldable pub parse_retry_after : Option Text → Option ℕ
parse_retry_after none = none
parse_retry_after (some value) = if nonempty value then parse_nonnegative value else none

-- The parsed body: null if it is empty, and `{ raw: text }` if it is not JSON.
unfoldable pub read_body : SdkEnv → Text → Json
read_body env [] = json_null
read_body env (c ∷ text) = elim (env.json_parse (c ∷ text)) [
  | some body ↦ body
  | none ↦ json_object (field (codes "raw") (json_string (c ∷ text)) end_object)
]

-- The first field of that name, which `JSON.parse` makes the only one.
unfoldable pub find_field : Text → Fields → Option Json
find_field key end_object = none
find_field key (field k v fields) =
    let rest = find_field key fields in if text_eq key k then some v else rest

-- `typeof value === "string" ? value : other`
abbrev pub string_or : Option Json → Text → Text
string_or (some (json_string s)) other = s
string_or _ other = other

unfoldable pub is_truthy : Option Json → Bool
is_truthy none = false
is_truthy (some json_null) = false
is_truthy (some (json_bool b)) = b
is_truthy (some (json_number b n)) = b
is_truthy (some (json_string s)) = nonempty s
is_truthy (some (json_array items)) = true
is_truthy (some (json_object fields)) = true

-- `typeof value === "string" ? value : null`, and `value ?? {}` left open.
abbrev pub string_or_null : Option Json → Option Text
string_or_null (some (json_string s)) = some s
string_or_null _ = none

abbrev pub present : Option Json → Option Json
present (some json_null) = none
present value = value

abbrev pub unrecognized_envelope : ErrorEnvelope
unrecognized_envelope = record {
  code = codes "unknown_error";
  message = codes "Non-JSON or unrecognized error envelope";
  hint = none;
  retryable = false;
  details = none;
}

unfoldable pub envelope_of : (Text → Option Json) → ErrorEnvelope
unfolding is_truthy
envelope_of get = record {
  code = string_or (get (codes "code")) (codes "unknown_error");
  message = string_or (get (codes "message")) (codes "Unknown error");
  hint = string_or_null (get (codes "hint"));
  retryable = is_truthy (get (codes "retryable"));
  details = present (get (codes "details"));
}

-- An array has none of the fields.
unfoldable pub extract_envelope : Json → ErrorEnvelope
unfolding find_field
extract_envelope (json_object fields) = elim (find_field (codes "error") fields) [
  | some (json_object error) ↦ envelope_of (λ key. find_field key error)
  | some (json_array items) ↦ envelope_of (λ key. none)
  | _ ↦ unrecognized_envelope
]
extract_envelope _ = unrecognized_envelope
