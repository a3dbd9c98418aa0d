-- ===== src/TsSdk/Transport/Termination.antt =====
-- The retry loop ends, and how long it sleeps.
use cryptokorr.Common.{
  ℕ, zero, suc, ◌+◌, ◌*◌, ◌≤◌, ◌<◌, Text, ◌≡◌, refl, Option, some, [], ◌∷◌, arith, or_else,
}
use cryptokorr.TsSdk.Wire.{
  RequestOptions, ResolvedConfig, Request, fetched, slept, Log, SdkEnv, End,
}
use cryptokorr.TsSdk.Transport.Retries.{
  Retried, begin, next, Ended, ended, settle_fetch-IsRetry, retry_loop-Ended,
}
use cryptokorr.TsSdk.Transport.{
  after_round, Round, finished, again, settle_fetch, retry_loop, request, key_of, build_request,
  budget_of,
}

-- What the loop relies on of the clock: a request does not take it back, a sleep takes at least as
-- long as was asked for, and a round takes at least `gap`.
pub record IsClock (now : Log → ℕ) (gap : ℕ) : Type 0 where
  pub monotone : (r : Request) (log : Log) → now log ≤ now (fetched r ∷ log)
  pub sleeps : (d : ℕ) (log : Log) → now log + d ≤ now (slept d ∷ log)
  pub progress : (r : Request) (d : ℕ) (log : Log) → now log + gap ≤ now (slept d ∷ fetched r ∷ log)

pub positive : (gap f now limit : ℕ) → limit ≤ now + gap * f → now < limit → 0 < f
positive gap zero now limit h k = omega (arith, h, k)
positive gap (suc f) now limit h k = omega arith

pub step :
    (gap f now limit later : ℕ)
    → limit ≤ now + gap * suc f
    → now + gap ≤ later
    → limit ≤ later + gap * f
step gap f now limit later h k = omega (arith, h, k)

pub irreflexive : 0 < 0 → ⊥
irreflexive k = omega (arith, k)

-- All the time that is slept in a log.
unfoldable pub total_sleep : Log → ℕ
total_sleep [] = 0
total_sleep (fetched r ∷ log) = total_sleep log
total_sleep (slept d ∷ log) = d + total_sleep log

module _ (env : SdkEnv) (path : Text) (timeout_ms budget_ms : ℕ) (key : Option Text) (req : Request)
    (started_at : ℕ) (gap : ℕ) (clock : IsClock env.now gap) where
  abbrev loop : ℕ → ℕ → Log → Option (End × Log)
  loop = retry_loop env path timeout_ms budget_ms key req started_at

  after_round-ends :
      (attempt f : ℕ) (log : Log) (rest : Log → Option (End × Log)) (r : Round)
      → settle_fetch env path timeout_ms budget_ms key req started_at attempt
          (env.fetch log req)
          (fetched req ∷ log)
        ≡ r
      → started_at + budget_ms ≤ env.now log + gap * f
      → ((later : Log)
          → env.now log + gap ≤ env.now later
          → 0 < f
          → (result : End × Log) × (rest later ≡ some result))
      → (result : End × Log) × (after_round rest (fetched req ∷ log) r ≡ some result)
  unfolding after_round
  after_round-ends attempt f log rest (finished end) s h k = ((end, fetched req ∷ log), refl)
  after_round-ends attempt f log rest (again delay) s h k =
      let retry =
        settle_fetch-IsRetry env path timeout_ms budget_ms key req started_at attempt _ _ delay s in
      let soon = retry.in_time in
      let later = clock.monotone req log in
      k (slept delay ∷ fetched req ∷ log) (clock.progress req delay log)
        (positive gap f (env.now log) (started_at + budget_ms) h (omega (arith, soon, later)))

  retry_loop-ends :
      (f attempt : ℕ) (log : Log)
      → started_at + budget_ms ≤ env.now log + gap * f
      → (result : End × Log) × (loop (suc f) attempt log ≡ some result)
  unfolding retry_loop
  retry_loop-ends zero attempt log h =
      after_round-ends (suc attempt) 0 log (loop 0 (suc attempt)) _ refl h
        (λ later p k. absurd (irreflexive k))
  retry_loop-ends (suc f) attempt log h =
      after_round-ends (suc attempt) (suc f) log _ _ refl h
        (λ later p k. retry_loop-ends f (suc attempt) later (step gap f _ _ _ h p))

  Retried-total_sleep :
      (start : Log) (n : ℕ) (log : Log)
      → total_sleep start ≡ 0
      → started_at ≤ env.now start
      → Retried env path timeout_ms budget_ms key req started_at start n log
      → (started_at + total_sleep log ≤ env.now log) × (total_sleep log ≤ budget_ms)
  unfolding total_sleep
  Retried-total_sleep start _ _ z h begin = (omega (arith, z, h), omega (arith, z))
  Retried-total_sleep start _ _ z h (next {n} {delay} {log} c r) =
      let (slow, few) = Retried-total_sleep start n log z h c in
      let later = clock.monotone req log in
      let wakes = clock.sleeps delay (fetched req ∷ log) in
      let soon = r.in_time in (omega (arith, slow, later, wakes), omega (arith, slow, later, soon))

  Ended-total_sleep :
      (start : Log) (result : End × Log)
      → total_sleep start ≡ 0
      → started_at ≤ env.now start
      → Ended env path timeout_ms budget_ms key req started_at start result
      → total_sleep result.1 ≤ budget_ms
  unfolding total_sleep
  Ended-total_sleep start _ z h (ended n log end c e) = (Retried-total_sleep start n log z h c).1

module _ (env : SdkEnv) (cfg : ResolvedConfig) (opts : RequestOptions) (gap : ℕ)
    (clock : IsClock env.now gap) where
  -- A request ends: if every round takes at least `gap` milliseconds, the loop is over after at most
  -- one round more than the retry budget has gaps, whatever the server answers.
  pub request-ends :
      (log : Log) (f : ℕ)
      → budget_of env cfg opts ≤ gap * f
      → (result : End × Log) × (request env cfg (suc f) opts log ≡ some result)
  unfolding request
  request-ends log f h =
      retry_loop-ends env opts.path _ (budget_of env cfg opts) (key_of env opts log)
        (build_request env cfg opts (key_of env opts log)) (env.now log) gap clock f 0 log
        (omega (arith, h))

  -- A request never sleeps longer in total than its retry budget, however many retries the server
  -- asks for and however long the delays of its `Retry-After` headers are.
  pub request-total_sleep :
      (fuel : ℕ) (result : End × Log)
      → request env cfg fuel opts [] ≡ some result
      → total_sleep result.1 ≤ budget_of env cfg opts
  unfolding request total_sleep
  request-total_sleep fuel result e =
      let key = key_of env opts [] in
      let req = build_request env cfg opts key in
      let path = opts.path in
      let timeout_ms = or_else opts.timeout_ms cfg.timeout_ms in
      let budget_ms = budget_of env cfg opts in
      Ended-total_sleep env path timeout_ms budget_ms key req (env.now []) gap clock [] result refl
        (omega arith)
        (retry_loop-Ended env path timeout_ms budget_ms key req (env.now []) fuel 0 [] [] result
          begin e)
