-- ===== src/TsSdk/Transport/Retries.antt =====
-- When the loop goes round again, and what it sends.
use cryptokorr.Common.{
  ℕ, zero, suc, ◌+◌, ◌<◌, Text, ◌≡◌, refl, subst, Bool, true, false, ◌&&◌, &&-eq-true, is_some, ltb,
  Option, some, ◌∷◌, arith, if◌then◌else◌,
}
use cryptokorr.TsSdk.Wire.{
  Request, Response, Fetched, responded, failed, fetched, slept, Log, SdkEnv, End, read_body,
  extract_envelope, parse_retry_after,
}
use cryptokorr.TsSdk.Transport.{
  Round, finished, again, can_retry, settle_response, settle_fetch, after_round, retry_loop,
  backoff_delay,
}

some-injective : {A : Type 0} {a b : A} → some a ≡ some b → a ≡ b
some-injective e = cc

ltb_sound : (a b : ℕ) → ltb a b ≡ true → a < b
ltb_sound a b h = ground arith

module _ (env : SdkEnv) (path : Text) (timeout_ms budget_ms : ℕ) (key : Option Text) (req : Request)
    (started_at : ℕ) where
  -- After this round, with this answer, the loop sleeps for `delay` and goes round again.
  pub record IsRetry (attempt : ℕ) (answer : Fetched) (log : Log) (delay : ℕ) : Type 0 where
    pub response : Response
    pub came : answer ≡ responded response
    pub not_ok : response.is_ok ≡ false
    pub retryable : (extract_envelope (read_body env response.body)).retryable ≡ true
    pub has_key : is_some key ≡ true
    pub waits : delay ≡ backoff_delay attempt (parse_retry_after response.retry_after)
    pub in_time : env.now log + delay < started_at + budget_ms

  goes_again :
      (b c : Bool) (end end' : End) (d delay : ℕ)
      → (if b then finished end else if c then again d else finished end') ≡ again delay
      → (b ≡ false) × (c ≡ true) × (delay ≡ d)
  goes_again true c end end' d delay e = cc
  goes_again false false end end' d delay e = cc
  goes_again false true end end' d delay e = (refl, refl, cc)

  pub settle_fetch-IsRetry :
      (attempt : ℕ) (answer : Fetched) (log : Log) (delay : ℕ)
      → settle_fetch env path timeout_ms budget_ms key req started_at attempt answer log
        ≡ again delay
      → IsRetry attempt answer log delay
  unfolding settle_fetch settle_response can_retry
  settle_fetch-IsRetry attempt (failed name message) log delay e = cc
  settle_fetch-IsRetry attempt (responded response) log delay e =
      let w = backoff_delay attempt (parse_retry_after response.retry_after) in
      let (b, c, d) =
        goes_again response.is_ok
          (can_retry env path timeout_ms budget_ms key req started_at response w log) _ _ w delay
          e in
      let soon = ltb (env.now log + w) (started_at + budget_ms) in
      let retryable = (extract_envelope (read_body env response.body)).retryable in
      let (allowed, early) = &&-eq-true (retryable && is_some key) soon c in
      let (allowed_again, keyed) = &&-eq-true retryable (is_some key) allowed in
      record {
        response = response;
        came = refl;
        not_ok = b;
        retryable = allowed_again;
        has_key = keyed;
        waits = d;
        in_time = rw d (ltb_sound (env.now log + w) (started_at + budget_ms) early);
      }

  -- The log of a loop that started with `start`: each round sent the same request, its answer asked
  -- for a retry, and the delay was slept.
  pub data Retried (start : Log) : ℕ → Log → Type 0 where
    begin : Retried start 0 start
    next :
        {n delay : ℕ} {log : Log}
        → Retried start n log
        → IsRetry (suc n) (env.fetch log req) (fetched req ∷ log) delay
        → Retried start (suc n) (slept delay ∷ fetched req ∷ log)

  -- The loop ended after these retries, with what the last answer came to.
  pub data Ended (start : Log) : End × Log → Type 0 where
    ended :
        (n : ℕ) (log : Log) (end : End)
        → Retried start n log
        → settle_fetch env path timeout_ms budget_ms key req started_at
            (suc n)
            (env.fetch log req)
            (fetched req ∷ log)
          ≡ finished end
        → Ended start (end, fetched req ∷ log)

  after_round-Ended :
      (n : ℕ) (start log : Log) (result : End × Log) (rest : Log → Option (End × Log)) (r : Round)
      → Retried start n log
      → settle_fetch env path timeout_ms budget_ms key req started_at
          (suc n)
          (env.fetch log req)
          (fetched req ∷ log)
        ≡ r
      → after_round rest (fetched req ∷ log) r ≡ some result
      → ((later : Log)
          → Retried start (suc n) later
          → rest later ≡ some result
          → Ended start result)
      → Ended start result
  unfolding after_round
  after_round-Ended n start log result rest (finished end) c s e f =
      subst (Ended start) (some-injective e) (ended n log end c s)
  after_round-Ended n start log result rest (again delay) c s e f =
      f _ (next c (settle_fetch-IsRetry (suc n) _ _ delay s)) e

  pub retry_loop-Ended :
      (fuel n : ℕ) (start log : Log) (result : End × Log)
      → Retried start n log
      → retry_loop env path timeout_ms budget_ms key req started_at fuel n log ≡ some result
      → Ended start result
  unfolding retry_loop
  retry_loop-Ended zero n start log result c e = cc
  retry_loop-Ended (suc fuel) n start log result c e =
      after_round-Ended n start log result _ _ c refl e
        (λ later c' e'. retry_loop-Ended fuel (suc n) start later result c' e')
