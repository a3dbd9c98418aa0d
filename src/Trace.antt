-- ===== src/Trace.antt =====
-- Logs as runs of a state machine: a program logic for the async functions of the adapter. A step
-- relation says which event may come next, after which log and in which phase.
pub mod Rules
pub mod Delivery
pub mod Acknowledged
pub mod Attempts
pub mod Signing
use cryptokorr.Common.{Text, ◌⊎◌, ◌≡◌, ◌∷◌}
use cryptokorr.Errors.{
  callback_error, execution_error, validation_error, unsupported_error, not_implemented_error,
}
use cryptokorr.Effect.{
  Reply, answered, failed, Thrown, adapter, cryptographic, unexpected, Outcome, ok, thrown, Event,
  History, World, Action,
}

-- `Course L first start p h`: what was logged in `h` since `start` is a run from `first` to `p`.
pub data Course {P : Type 0} (L : History → P → Event → P → Type 0) (first : P) (start : History)
    : P → History → Type 0 where
  begin : Course L first start first start
  next :
      {p q : P} {e : Event} {h : History}
      → Course L first start p h
      → L h p e q
      → Course L first start q (e ∷ h)

module _ {P : Type 0} where
  -- An outside call moves to the phase of its event, whatever is answered.
  abbrev pub Stranded : P → Thrown → P → Type 0
  Stranded q (adapter e) r = ⊥
  Stranded q (cryptographic code message) r = ⊥
  Stranded q (unexpected message) r = r ≡ q

  abbrev pub Moved : {A : Type 0} → (A → Type 0) → P → Outcome A → P → Type 0
  Moved Got q (ok a) r = Got a × (r ≡ q)
  Moved Got q (thrown e) r = Stranded q e r

  pub Stranded-phase : (q r : P) (e : Thrown) → Stranded q e r → r ≡ q
  Stranded-phase q r (adapter e) h = absurd h
  Stranded-phase q r (cryptographic code message) h = absurd h
  Stranded-phase q r (unexpected message) h = h

  abbrev pub Stayed : {A : Type 0} → P → Outcome A → P → Type 0
  Stayed p (ok a) r = r ≡ p
  Stayed p (thrown e) r = ⊥

  -- An outside call moves to a phase that holds its answer.
  abbrev pub Asked : {A : Type 0} → (Reply A → P) → Outcome A → P → Type 0
  Asked to (ok a) r = r ≡ to (answered a)
  Asked to (thrown (adapter e)) r = ⊥
  Asked to (thrown (cryptographic code message)) r = ⊥
  Asked to (thrown (unexpected message)) r = r ≡ to (failed message)

  -- How an execution may fail: by an `ExecutionError`, in a phase that `Failed` describes, or by a
  -- `CallbackError`.
  abbrev pub Fault : (P → Type 0) → Thrown → P → Type 0
  Fault Failed (adapter (execution_error code message)) r = Failed r
  Fault Failed (adapter (callback_error message)) r = Unit {0}
  Fault Failed (adapter (validation_error message)) r = ⊥
  Fault Failed (adapter (unsupported_error message)) r = ⊥
  Fault Failed (adapter (not_implemented_error message)) r = ⊥
  Fault Failed (cryptographic code message) r = ⊥
  Fault Failed (unexpected message) r = ⊥

  abbrev pub Verdict : {A : Type 0} → (A → P → Type 0) → (P → Type 0) → Outcome A → P → Type 0
  Verdict Got Failed (ok a) r = Got a r
  Verdict Got Failed (thrown e) r = Fault Failed e r

  pub Fault-weaken :
      (Failed : P → Type 0) (e : Thrown) (r : P) → Fault (λ q. ⊥) e r → Fault Failed e r
  Fault-weaken Failed (adapter (execution_error code message)) r h = absurd h
  Fault-weaken Failed (adapter (callback_error message)) r h = tt
  Fault-weaken Failed (adapter (validation_error message)) r h = h
  Fault-weaken Failed (adapter (unsupported_error message)) r h = h
  Fault-weaken Failed (adapter (not_implemented_error message)) r h = h
  Fault-weaken Failed (cryptographic code message) r h = h
  Fault-weaken Failed (unexpected message) r h = h

  -- A callback that was to lead from `p` to `q` is delivered, or `send` throws a `CallbackError`: in
  -- `p` if the payload did not pass its schema, and in `q` if the request failed.
  abbrev pub Undelivered : P → P → Thrown → P → Type 0
  Undelivered p q (adapter (callback_error message)) r = (r ≡ p) ⊎ (r ≡ q)
  Undelivered p q (adapter (execution_error code message)) r = ⊥
  Undelivered p q (adapter (validation_error message)) r = ⊥
  Undelivered p q (adapter (unsupported_error message)) r = ⊥
  Undelivered p q (adapter (not_implemented_error message)) r = ⊥
  Undelivered p q (cryptographic code message) r = ⊥
  Undelivered p q (unexpected message) r = ⊥

  abbrev pub Delivered : {A : Type 0} → P → P → Outcome A → P → Type 0
  Delivered p q (ok a) r = r ≡ q
  Delivered p q (thrown e) r = Undelivered p q e r

  -- A callback is delivered, or `send` throws a `CallbackError`.
  abbrev pub Sent : P → Outcome (Unit {0}) → P → Type 0
  Sent q = Verdict (λ u r. r ≡ q) (λ r. ⊥)

pub Delivered-Sent :
    {P : Type 0} (p q : P) (o : Outcome (Unit {0})) (r : P) → Delivered p q o r → Sent q o r
Delivered-Sent p q (ok a) r h = h
Delivered-Sent p q (thrown (adapter (callback_error message))) r h = tt
Delivered-Sent p q (thrown (adapter (execution_error code message))) r h = h
Delivered-Sent p q (thrown (adapter (validation_error message))) r h = h
Delivered-Sent p q (thrown (adapter (unsupported_error message))) r h = h
Delivered-Sent p q (thrown (adapter (not_implemented_error message))) r h = h
Delivered-Sent p q (thrown (cryptographic code message)) r h = h
Delivered-Sent p q (thrown (unexpected message)) r h = h

-- A postcondition for each way to build an action: `Follows L p m Post` says that from phase `p` the
-- action `m` takes a legal course, to a phase that fits its outcome.
abbrev pub Follows :
    {P A : Type 0}
    → (History → P → Event → P → Type 0)
    → P
    → Action A
    → (Outcome A → P → Type 0)
    → Type 0
Follows {P} L p m Post =
    (first : P) (start : History) (w : World)
    → Course L first start p w.history
    → (q : P) × Course L first start q (m w).1.history × Post (m w).0 q
