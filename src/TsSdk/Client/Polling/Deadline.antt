-- ===== src/TsSdk/Client/Polling/Deadline.antt =====
-- Polling for a decision ends, and what it ends with.
use cryptokorr.Common.{
  ℕ, zero, suc, ◌+◌, ◌*◌, ◌≤◌, ◌<◌, Text, codes, nonempty, or_else, leb, ◌≡◌, refl, true, false,
  Bool-cases, inl, inr, Option, some, [], ◌∷◌, arith,
}
use cryptokorr.TsSdk.Case.{Json}
use cryptokorr.TsSdk.Wire.{
  ResolvedConfig, Request, fetched, slept, Log, SdkEnv, Failure, End, returned, rejected, is_truthy,
  is_write, string_or,
}
use cryptokorr.TsSdk.Transport.{request}
use cryptokorr.TsSdk.Transport.Idempotency.{request-once}
use cryptokorr.TsSdk.Transport.Termination.{IsClock, positive, step, irreflexive}
use cryptokorr.TsSdk.Client.{get_intent, get_decision}
use cryptokorr.TsSdk.Client.Polling.{
  default_wait_timeout_s, default_wait_poll_ms, property, is_null, Poll, settled, pending,
  check_outcome, on_decision, follow_intent, on_intent, after_poll, wait_loop, wait_for_decision,
}

-- The requests of a log.
abbrev pub fetches : Log → ℕ
fetches [] = 0
fetches (fetched r ∷ log) = let rest = fetches log in rest + 1
fetches (slept delay ∷ log) = fetches log

-- Only a decision that has an outcome is returned.
abbrev pub HasOutcome : End → Type 0
HasOutcome (returned decision) = is_truthy (property (codes "outcome") decision) ≡ true
HasOutcome (rejected failure) = Unit {0}

-- The result of a loop of at most `rounds` rounds after `log`.
abbrev pub EndsWithin : ℕ → Log → Option (End × Log) → Type 0
EndsWithin rounds log o =
    (result : End × Log) × (o ≡ some result)
    × HasOutcome result.0
    × (fetches result.1 ≤ fetches log + 2 * rounds)

abbrev GoodPoll : Poll → Type 0
GoodPoll (settled end) = HasOutcome end
GoodPoll pending = Unit {0}

before_deadline : (a b : ℕ) → leb a b ≡ false → b < a
before_deadline a b h = ground arith

check_outcome-good : (decision : Json) → GoodPoll (check_outcome decision)
unfolding check_outcome
check_outcome-good decision = elim (Bool-cases (is_null decision)) [
  | inl n ↦ rw n tt
  | inr n ↦ elim (Bool-cases (is_truthy (property (codes "outcome") decision))) [
    | inl t ↦ rw (n, t) t
    | inr t ↦ rw (n, t) tt
  ]
]

module _ (env : SdkEnv) (cfg : ResolvedConfig) (encode : Text → Text) (intent_id : Text) (f : ℕ)
    (gap : ℕ) (clock : IsClock env.now gap) where
  -- A round ends with an answer, no earlier than `log`, that came to such a poll, after at most
  -- `most` requests.
  data Polled (most : ℕ) (log : Log) : Option (Poll × Log) → Type 0 where
    polled :
        (poll : Poll) (r : Request) (before : Log)
        → GoodPoll poll
        → env.now log ≤ env.now before
        → fetches before + 1 ≤ fetches log + most
        → Polled most log (some (poll, fetched r ∷ before))

  Polled-earlier :
      (log later : Log) (o : Option (Poll × Log))
      → env.now log ≤ env.now later
      → fetches later ≤ fetches log + 1
      → Polled 1 later o
      → Polled 2 log o
  Polled-earlier log later _ h l (polled poll r before g m c) =
      polled poll r before g (omega (arith, h, m)) (omega (arith, l, c))

  on_decision-Polled :
      (log before : Log) (r : Request) (end : End)
      → env.now log ≤ env.now before
      → fetches before ≤ fetches log
      → Polled 1 log (on_decision (some (end, fetched r ∷ before)))
  unfolding on_decision
  on_decision-Polled log before r (returned decision) h c =
      polled (check_outcome decision) r before (check_outcome-good decision) h (omega (arith, c))
  on_decision-Polled log before r (rejected failure) h c = polled _ r before tt h (omega (arith, c))

  decision-Polled :
      (log : Log) (id : Text)
      → Polled 1 log (on_decision (request env cfg (suc f) (get_decision encode id) log))
  unfolding is_write get_decision
  decision-Polled log id =
      let (end, e) = request-once env cfg (get_decision encode id) f log refl in
      rw e (on_decision-Polled log log _ end (omega arith) (omega arith))

  follow_intent-Polled :
      (intent : Json) (log : Log) (r : Request)
      → Polled 2 log (follow_intent env cfg encode intent_id (suc f) intent (fetched r ∷ log))
  unfolding follow_intent
  follow_intent-Polled intent log r = elim (Bool-cases (is_null intent)) [
    | inl e ↦ rw e (polled _ r log tt (omega arith) (omega arith))
    | inr e ↦
        let id = string_or (property (codes "currentDecisionId") intent) [] in
        elim (Bool-cases (nonempty id)) [
          | inl e' ↦
              rw (e, e')
                (Polled-earlier log (fetched r ∷ log) _ (clock.monotone r log) (omega arith)
                  (decision-Polled (fetched r ∷ log) id))
          | inr e' ↦ rw (e, e') (polled pending r log tt (omega arith) (omega arith))
        ]
  ]

  on_intent-Polled :
      (end : End) (log : Log) (r : Request)
      → Polled 2 log (on_intent env cfg encode intent_id (suc f) (some (end, fetched r ∷ log)))
  unfolding on_intent
  on_intent-Polled (returned intent) log r = follow_intent-Polled intent log r
  on_intent-Polled (rejected failure) log r = polled _ r log tt (omega arith) (omega arith)

  intent-Polled :
      (log : Log)
      → Polled 2 log (
          on_intent env cfg encode intent_id
            (suc f)
            (request env cfg (suc f) (get_intent encode intent_id) log))
  unfolding is_write get_intent
  intent-Polled log =
      let (end, e) = request-once env cfg (get_intent encode intent_id) f log refl in
      rw e (on_intent-Polled end log _)

  after_poll-ends :
      (n deadline interval : ℕ) (late : Failure) (log : Log) (rest : Log → Option (End × Log))
      (o : Option (Poll × Log))
      → deadline ≤ env.now log + gap * n
      → Polled 2 log o
      → ((later : Log)
          → env.now log + gap ≤ env.now later
          → 0 < n
          → EndsWithin n later (rest later))
      → EndsWithin (suc n) log (after_poll env.now deadline interval late rest o)
  unfolding after_poll
  after_poll-ends n deadline interval late log rest _ h (polled (settled end) r before g m c) k =
      ((end, fetched r ∷ before), refl, g, omega (arith, c))
  after_poll-ends n deadline interval late log rest _ h (polled pending r before g m c) k =
      elim (Bool-cases (leb deadline (env.now (fetched r ∷ before)))) [
        | inl e ↦ ((rejected late, fetched r ∷ before), rw e refl, tt, omega (arith, c))
        | inr e ↦
            let later = clock.monotone r before in
            let progress = clock.progress r interval before in
            let early = before_deadline deadline (env.now (fetched r ∷ before)) e in
            let (result, same, outcome, most) =
              k (slept interval ∷ fetched r ∷ before) (omega (arith, m, progress))
                (positive gap n (env.now log) deadline h (omega (arith, m, later, early))) in
            (result, rw e same, outcome, omega (arith, c, most))
      ]

  wait_loop-ends :
      (n timeout_ms interval deadline : ℕ) (log : Log)
      → deadline ≤ env.now log + gap * n
      → EndsWithin
          (suc n)
          log
          (wait_loop env cfg encode intent_id (suc f) (suc n) timeout_ms interval deadline log)
  unfolding wait_loop
  wait_loop-ends zero timeout_ms interval deadline log h =
      after_poll-ends 0 deadline interval _ log
        (λ later. wait_loop env cfg encode intent_id (suc f) 0 timeout_ms interval deadline later) _
        h (intent-Polled log) (λ later p k. absurd (irreflexive k))
  wait_loop-ends (suc n) timeout_ms interval deadline log h =
      after_poll-ends (suc n) deadline interval _ log
        (λ later.
          wait_loop env cfg encode intent_id (suc f) (suc n) timeout_ms interval deadline later)
        _ h (intent-Polled log)
        (λ later p k. wait_loop-ends n timeout_ms interval deadline later (step gap n _ _ _ h p))

  -- Polling for a decision ends: if a request and the sleep after it take at least `gap` milliseconds,
  -- at most one round more than the timeout has gaps is made, and no more than two requests for each
  -- of these rounds; and a decision that is returned has an outcome.
  pub wait_for_decision-ends :
      (n : ℕ) (timeout_seconds poll_interval_ms : Option ℕ) (log : Log)
      → or_else timeout_seconds default_wait_timeout_s * 1000 ≤ gap * n
      → EndsWithin (suc n) log (
          wait_for_decision env cfg encode intent_id
            (suc f)
            (suc n)
            timeout_seconds
            poll_interval_ms
            log)
  unfolding wait_for_decision
  wait_for_decision-ends n timeout_seconds poll_interval_ms log h =
      wait_loop-ends n (or_else timeout_seconds default_wait_timeout_s * 1000)
        (or_else poll_interval_ms default_wait_poll_ms) _ log (omega (arith, h))
