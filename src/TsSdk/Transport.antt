-- ===== src/TsSdk/Transport.antt =====
-- sdks/typescript/src/transport.ts: `Transport.request`, with its retries.
pub mod Retries
pub mod Idempotency
pub mod Termination
use cryptokorr.Common.{
  ℕ, zero, suc, ◌+◌, ◌*◌, ◌^◌, ◌<◌, Text, codes, contains, to_lower, to_string, or_else, is_some,
  leb, ltb, text_eq, Bool, true, false, ◌||◌, ◌&&◌, not, Option, none, some, List, [], ◌∷◌, ◌++◌,
  if◌then◌else◌,
}
use cryptokorr.TsSdk.Case.{Json, to_camel_deep, to_snake_deep}
use cryptokorr.TsSdk.Redaction.{redact_string}
use cryptokorr.TsSdk.Errors.{decode_error}
use cryptokorr.TsSdk.Wire.{
  is_write, RequestOptions, ResolvedConfig, Request, Response, Fetched, responded, failed, fetched,
  slept, Log, SdkEnv, Failure, plain_error, api_failure, End, returned, rejected,
  initial_backoff_ms, max_backoff_ms, retry_budget_multiplier, min, new_idempotency_key, build_url,
  parse_retry_after, read_body, extract_envelope,
}

unfoldable pub backoff_delay : ℕ → Option ℕ → ℕ
backoff_delay attempt (some seconds) = min (seconds * 1000) max_backoff_ms
backoff_delay attempt none = min (initial_backoff_ms * 2 ^ attempt) max_backoff_ms

-- What one round of the loop comes to: the end, or a delay before the next.
pub data Round : Type 0 where
  finished : End → Round
  again : ℕ → Round

-- The end of the loop, or its next round after the sleep.
unfoldable pub after_round : (Log → Option (End × Log)) → Log → Round → Option (End × Log)
after_round rest sent (finished end) = some (end, sent)
after_round rest sent (again delay) = rest (slept delay ∷ sent)

unfoldable pub is_abort : Text → Text → Bool
is_abort name message =
    text_eq name (codes "AbortError") || contains (codes "aborted") (to_lower message)

module _ (env : SdkEnv) where
  -- `idempotencyKey`, which only a write has.
  unfoldable pub key_of : RequestOptions → Log → Option Text
  unfolding new_idempotency_key is_write
  key_of opts log =
      if is_write opts.method
      then some (or_else opts.idempotency_key (new_idempotency_key env log))
      else none

  unfoldable pub build_headers : ResolvedConfig → RequestOptions → Option Text → List (Text × Text)
  build_headers cfg opts key =
      (codes "user-agent", cfg.user_agent)
        ∷ (codes "accept", codes "application/json")
        ∷ (if opts.unauthenticated
            then []
            else (codes "authorization", codes "Bearer " ++ cfg.api_key) ∷ [])
      ++ (elim key [ none ↦ [] | some k ↦ (codes "idempotency-key", k) ∷ [] ])
      ++ (elim opts.body [
        | none ↦ []
        | some body ↦ (codes "content-type", codes "application/json") ∷ []
      ])

  unfoldable pub build_request : ResolvedConfig → RequestOptions → Option Text → Request
  unfolding build_headers build_url
  build_request cfg opts key = record {
    method = opts.method;
    url = build_url env cfg.base_url opts.path opts.query;
    headers = build_headers cfg opts key;
    body = elim opts.body [
      | none ↦ none
      | some body ↦ some (env.json_stringify (to_snake_deep body))
    ];
  }

  module _ (path : Text) (timeout_ms budget_ms : ℕ) (key : Option Text) (request : Request)
      (started_at : ℕ) where
    -- The `catch` clause around `fetch`.
    unfoldable pub fetch_failure : Text → Text → Failure
    unfolding to_string
    fetch_failure name message =
        if is_abort name message
        then plain_error (
            codes "Cryptokorr: request to "
            ++ redact_string path
            ++ codes " timed out after "
            ++ to_string 10 timeout_ms
            ++ codes "ms")
        else plain_error (
            codes "Cryptokorr: network error contacting "
            ++ redact_string path
            ++ codes ": "
            ++ redact_string message)

    -- `Date.now() - startedAt < retryBudgetMs - delay`, over the integers.
    unfoldable pub can_retry : Response → ℕ → Log → Bool
    can_retry response delay log =
        (extract_envelope (read_body env response.body)).retryable
        && is_some key
        && ltb (env.now log + delay) (started_at + budget_ms)

    -- An answer that came as the last event of the log.
    unfoldable pub settle_response : ℕ → Response → Log → Round
    unfolding can_retry
    settle_response attempt response log =
        let body = read_body env response.body in
        let retry_after = parse_retry_after response.retry_after in
        let delay = backoff_delay attempt retry_after in
        if response.is_ok
        then finished (returned (to_camel_deep body))
        else if can_retry response delay log
        then again delay
        else finished (
            rejected (
              api_failure (
                decode_error response.status (extract_envelope body) response.request_id
                  retry_after)))

    unfoldable pub settle_fetch : ℕ → Fetched → Log → Round
    unfolding settle_response fetch_failure
    settle_fetch attempt (responded response) log = settle_response attempt response log
    settle_fetch attempt (failed name message) log =
        finished (rejected (fetch_failure name message))

    -- The loop, `attempt` rounds of which are over, for at most `fuel` more.
    unfoldable pub retry_loop : ℕ → ℕ → Log → Option (End × Log)
    unfolding after_round
    retry_loop zero attempt log = none
    retry_loop (suc fuel) attempt log =
        let sent = fetched request ∷ log in
        after_round (λ later. retry_loop fuel (suc attempt) later) sent
          (settle_fetch (suc attempt) (env.fetch log request) sent)

  unfoldable pub budget_of : ResolvedConfig → RequestOptions → ℕ
  budget_of cfg opts = or_else opts.retry_budget_ms (cfg.timeout_ms * retry_budget_multiplier)

  -- `Transport.request`
  unfoldable pub request : ResolvedConfig → ℕ → RequestOptions → Log → Option (End × Log)
  unfolding retry_loop key_of build_request budget_of
  request cfg fuel opts log =
      let key = key_of opts log in
      retry_loop opts.path (or_else opts.timeout_ms cfg.timeout_ms) (budget_of cfg opts) key
        (build_request cfg opts key) (env.now log) fuel 0 log
