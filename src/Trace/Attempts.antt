-- ===== src/Trace/Attempts.antt =====
-- Functions whose failures their caller reports: an `ExecutionError` has been reported already, and
-- anything else leaves a phase in which a failure may still be reported.
use cryptokorr.Common.{Text, inl, inr, ◌≡◌}
use cryptokorr.Errors.{
  callback_error, execution_error, validation_error, unsupported_error, not_implemented_error,
}
use cryptokorr.Effect.{
  Reply, answered, failed, Thrown, adapter, cryptographic, unexpected, Outcome, ok, thrown, Event,
  History, Action, call_out, ◌>>=◌, ◌>>◌,
}
use cryptokorr.Trace.{Moved, Stranded, Asked, Undelivered, Follows}
use cryptokorr.Trace.Rules.{
  bind-Follows, seq-Follows, call_out-Follows, ask-Follows, weaken-Follows,
}

module _ {P : Type 0} (CanFail IsFailed : P → Type 0) where
  abbrev pub Open : Thrown → P → Type 0
  Open (adapter (execution_error code message)) r = IsFailed r
  Open (adapter (callback_error message)) r = CanFail r
  Open (adapter (validation_error message)) r = CanFail r
  Open (adapter (unsupported_error message)) r = CanFail r
  Open (adapter (not_implemented_error message)) r = CanFail r
  Open (cryptographic code message) r = CanFail r
  Open (unexpected message) r = CanFail r

  abbrev pub Attempt : {A : Type 0} → (A → P → Type 0) → Outcome A → P → Type 0
  Attempt Got (ok a) r = Got a r
  Attempt Got (thrown e) r = Open e r

  pub Open-CanFail :
      ((r : P) → IsFailed r → CanFail r) → (e : Thrown) (r : P) → Open e r → CanFail r
  Open-CanFail again (adapter (execution_error code message)) r h = again r h
  Open-CanFail again (adapter (callback_error message)) r h = h
  Open-CanFail again (adapter (validation_error message)) r h = h
  Open-CanFail again (adapter (unsupported_error message)) r h = h
  Open-CanFail again (adapter (not_implemented_error message)) r h = h
  Open-CanFail again (cryptographic code message) r h = h
  Open-CanFail again (unexpected message) r h = h

  pub Undelivered-Open :
      (p q : P) (e : Thrown) (r : P) → CanFail p → CanFail q → Undelivered p q e r → Open e r
  Undelivered-Open p q (adapter (callback_error message)) r c d (inl h) = rw h c
  Undelivered-Open p q (adapter (callback_error message)) r c d (inr h) = rw h d
  Undelivered-Open p q (adapter (execution_error code message)) r c d h = absurd h
  Undelivered-Open p q (adapter (validation_error message)) r c d h = absurd h
  Undelivered-Open p q (adapter (unsupported_error message)) r c d h = absurd h
  Undelivered-Open p q (adapter (not_implemented_error message)) r c d h = absurd h
  Undelivered-Open p q (cryptographic code message) r c d h = absurd h
  Undelivered-Open p q (unexpected message) r c d h = absurd h

  Stranded-Open : (q r : P) (e : Thrown) → CanFail q → Stranded q e r → Open e r
  Stranded-Open q r (adapter e) c h = absurd h
  Stranded-Open q r (cryptographic code message) c h = absurd h
  Stranded-Open q r (unexpected message) c h = rw h c

  Moved-Attempt :
      {A : Type 0} (q : P)
      → CanFail q
      → (o : Outcome A) (r : P) → Moved (λ _. Unit {0}) q o r
      → Attempt (λ a s. s ≡ q) o r
  Moved-Attempt q c (ok a) r h = h.1
  Moved-Attempt q c (thrown e) r h = Stranded-Open q r e c h

  Asked-Attempt :
      {A : Type 0} (to : Reply A → P)
      → ((m : Text) → CanFail (to (failed m)))
      → (o : Outcome A) (r : P) → Asked to o r
      → Attempt (λ a s. s ≡ to (answered a)) o r
  Asked-Attempt to c (ok a) r h = h
  Asked-Attempt to c (thrown (adapter e)) r h = absurd h
  Asked-Attempt to c (thrown (cryptographic code message)) r h = absurd h
  Asked-Attempt to c (thrown (unexpected message)) r h = rw h (c message)

  module _ (L : History → P → Event → P → Type 0) where
    pub and_then-Follows :
        {A B : Type 0} (G : A → P → Type 0) (H : B → P → Type 0) (p : P) (m : Action A)
        (f : A → Action B)
        → Follows L p m (Attempt G)
        → ((a : A) (q : P) → G a q → Follows L q (f a) (Attempt H))
        → Follows L p (m >>= f) (Attempt H)
    and_then-Follows G H p m f first rest =
        bind-Follows L (Attempt G) (Attempt H) p m f first rest (λ e q h. h)

    pub then-Follows :
        {A B : Type 0} (G : A → P → Type 0) (H : B → P → Type 0) (p : P) (m : Action A)
        (k : Action B)
        → Follows L p m (Attempt G)
        → ((a : A) (q : P) → G a q → Follows L q k (Attempt H))
        → Follows L p (m >> k) (Attempt H)
    then-Follows G H p m k first rest =
        seq-Follows L (Attempt G) (Attempt H) p m k first rest (λ e q h. h)

    -- A call that stays in a phase, and a call whose answer is the next phase.
    pub stay-Follows :
        {A : Type 0} (p : P) (e : Event) (ask : History → Reply A)
        → CanFail p
        → ((hist : History) → L hist p e p)
        → Follows L p (call_out e ask) (Attempt (λ a r. r ≡ p))
    stay-Follows p e ask c l =
        weaken-Follows L (Moved (λ _. Unit {0}) p) (Attempt (λ a r. r ≡ p)) p (call_out e ask)
          (Moved-Attempt p c) (call_out-Follows L p p e ask l)

    pub advance-Follows :
        {A : Type 0} (p : P) (to : Reply A → P) (e : Event) (ask : History → Reply A)
        → ((m : Text) → CanFail (to (failed m)))
        → ((hist : History) → L hist p e (to (ask hist)))
        → Follows L p (call_out e ask) (Attempt (λ a r. r ≡ to (answered a)))
    advance-Follows p to e ask c l =
        weaken-Follows L (Asked to) (Attempt (λ a r. r ≡ to (answered a))) p (call_out e ask)
          (Asked-Attempt to c) (ask-Follows L p to e ask l)
