-- ===== src/Grant/Protocol/Stages.antt =====
-- The failures and the calls of the grant, each against its protocol.
use cryptokorr.Common.{ℕ, Text, codes, ◌≡◌, refl, Bool, true, false, ◌++◌, if◌then◌else◌, or_else}
use cryptokorr.Errors.{
  callback_error, execution_error, validation_error, unsupported_error, not_implemented_error,
}
use cryptokorr.Effect.{
  Reply, answered, failed, Thrown, adapter, cryptographic, unexpected, Outcome, thrown, Receipt,
  Env, Event, History, pure,
}
use cryptokorr.Trace.{
  Stayed, Delivered, Undelivered, Delivered-Sent, Fault-weaken, Verdict, Follows,
}
use cryptokorr.Trace.Rules.{
  pure-Follows, throw-Follows, bind-Follows, seq-Follows, try_catch-Follows,
}
use cryptokorr.Trace.Delivery.{
  next_callback_id-Follows, now_iso-Follows, now_ms-Follows, send-Delivered,
}
use cryptokorr.Trace.Attempts.{
  Open, Open-CanFail, Undelivered-Open, and_then-Follows, advance-Follows,
}
use cryptokorr.Execution.Pipeline.{run_encoder}
use cryptokorr.Grant.{
  GrantSdk, GrantConfig, GrantFailureCode, report_grant_failed, emit_grant_failure, on_grant_error,
  settle_install, install_permission, serialize_permission,
}
use cryptokorr.Grant.Protocol.{
  GrantPhase, planned, sent, mined, serialized, refused, IsAllowed, CanFail, at_planned, at_sent,
  at_unconfirmed, at_reverted, at_unserialized, again, Legal, install, wait, serialize, fail,
  IsRefused, Try,
}

pub refused-CanFail : (r : GrantPhase) → IsRefused r → CanFail r
refused-CanFail r h = rw h again

module _ (env : Env) (sdk : GrantSdk) (config : GrantConfig) (chain_id : ℕ)
    (smart_account_id : Text) where
  -- The step relation of this grant.
  abbrev This : History → GrantPhase → Event → GrantPhase → Type 0
  This = Legal sdk config chain_id smart_account_id

  report_failed-Follows :
      (p : GrantPhase) (reason : Text)
      → CanFail p
      → Follows This p (report_grant_failed env smart_account_id reason) (Delivered p refused)
  unfolding report_grant_failed
  report_failed-Follows p reason c =
      bind-Follows This (Stayed p) (Delivered p refused) p _ _ (next_callback_id-Follows This env p)
        (λ id r e. rw e (
          bind-Follows This (Stayed p) (Delivered p refused) p _ _ (now_ms-Follows This env p)
            (λ ms r' e'. rw e' (
              bind-Follows This (Stayed p) (Delivered p refused) p _ _ (now_iso-Follows This env p)
                (λ now s k.
                  rw k (send-Delivered This env p refused _ (λ hist. fail id _ reason now c)))
                (λ x s h. absurd h)))
            (λ x r' h. absurd h)))
        (λ x r h. absurd h)

  fail-Follows :
      {A : Type 0} (Post : Outcome A → GrantPhase → Type 0) (p : GrantPhase)
      (code : GrantFailureCode) (message : Text)
      → CanFail p
      → ((c m : Text) → Post (thrown (adapter (execution_error c m))) refused)
      → ((e : Thrown) (r : GrantPhase) → Undelivered p refused e r → Post (thrown e) r)
      → Follows This p (emit_grant_failure env smart_account_id code message) Post
  unfolding emit_grant_failure
  fail-Follows Post p code message c reported lost =
      seq-Follows This (Delivered p refused) Post p _ _ (report_failed-Follows p _ c)
        (λ u r e. rw e (throw-Follows This Post refused _ (reported _ _))) lost

  -- Inside a `try`, and outside of it.
  pub caught_fail-Follows :
      {A : Type 0} (G : A → GrantPhase → Type 0) (p : GrantPhase) (code : GrantFailureCode)
      (message : Text)
      → CanFail p
      → Follows This p (emit_grant_failure env smart_account_id code message) (Try G)
  caught_fail-Follows G p code message c =
      fail-Follows (Try G) p code message c (λ a m. refl)
        (λ e r h. Undelivered-Open CanFail IsRefused p refused e r c again h)

  pub last_fail-Follows :
      {A : Type 0} (G : A → GrantPhase → Type 0) (p : GrantPhase) (code : GrantFailureCode)
      (message : Text)
      → CanFail p
      → Follows This p (emit_grant_failure env smart_account_id code message) (Verdict G IsRefused)
  last_fail-Follows G p code message c =
      fail-Follows (Verdict G IsRefused) p code message c (λ a m. refl)
        (λ e r h. Fault-weaken IsRefused e r (Delivered-Sent p refused (thrown e) r h))

  module _ {A : Type 0} (Post : Outcome A → GrantPhase → Type 0) (prefix : Text) where
    pub on_error-Follows :
        ((c m : Text) (p : GrantPhase)
          → IsRefused p
          → Post (thrown (adapter (execution_error c m))) p)
        → ((p : GrantPhase) (code : GrantFailureCode) (message : Text)
            → CanFail p
            → Follows This p (emit_grant_failure env smart_account_id code message) Post)
        → (e : Thrown) (p : GrantPhase) → Open CanFail IsRefused e p
        → Follows This p (on_grant_error env smart_account_id prefix e) Post
    unfolding on_grant_error
    on_error-Follows rethrown f (adapter (execution_error code message)) p h =
        throw-Follows This Post p _ (rethrown code message p h)
    on_error-Follows rethrown f (adapter (callback_error message)) p h = f p _ _ h
    on_error-Follows rethrown f (adapter (validation_error message)) p h = f p _ _ h
    on_error-Follows rethrown f (adapter (unsupported_error message)) p h = f p _ _ h
    on_error-Follows rethrown f (adapter (not_implemented_error message)) p h = f p _ _ h
    on_error-Follows rethrown f (cryptographic code message) p h = f p _ _ h
    on_error-Follows rethrown f (unexpected message) p h = f p _ _ h

  pub encoder-Follows :
      {A : Type 0} (p : GrantPhase) (o : Reply A)
      → CanFail p
      → Follows This p (run_encoder o) (Try (λ a r. (o ≡ answered a) × (r ≡ p)))
  unfolding run_encoder
  encoder-Follows p (answered a) c =
      pure-Follows This (Try (λ x r. (answered a ≡ answered x) × (r ≡ p))) p a (refl, refl)
  encoder-Follows p (failed message) c =
      throw-Follows This (Try (λ x r. (failed message ≡ answered x) × (r ≡ p))) p _ c

  -- The install that the phase holds succeeded.
  abbrev pub Installed : Text → Receipt → GrantPhase → Type 0
  Installed id receipt r = (receipt.success ≡ true) × (r ≡ mined id (answered receipt))

  settled-Follows :
      (id : Text) (receipt : Receipt) (b : Bool)
      → receipt.success ≡ b
      → Follows This
          (mined id (answered receipt))
          (if b
            then pure receipt
            else emit_grant_failure env smart_account_id GrantFailureCode.permission_install_failed
                (codes "Install UserOp reverted: "
                  ++ or_else receipt.reason (codes "permission_install_reverted")))
          (Try (Installed id))
  settled-Follows id receipt true e =
      pure-Follows This (Try (Installed id)) (mined id (answered receipt)) receipt (e, refl)
  settled-Follows id receipt false e =
      caught_fail-Follows (Installed id) (mined id (answered receipt)) _ _
        (at_reverted id receipt e)

  pub install_permission-Follows :
      (id : Text)
      → IsAllowed config chain_id
      → Follows This
          (planned (answered id))
          (install_permission env smart_account_id sdk config)
          (Try (Installed id))
  unfolding install_permission settle_install
  install_permission-Follows id a =
      let p = planned (answered id) in
      and_then-Follows CanFail IsRefused This _ (Installed id) p _ _
        (encoder-Follows p _ (at_planned (answered id)))
        (λ call_data q k. rw k.1 (
          and_then-Follows CanFail IsRefused This (λ h r. r ≡ sent id (answered h)) (Installed id) p
            _ _
            (advance-Follows CanFail IsRefused This p (sent id) _ _ (λ m. at_sent id (failed m))
              (λ hist. install id call_data a k.0))
            (λ h r e. rw e (
              and_then-Follows CanFail IsRefused This (λ receipt s. s ≡ mined id (answered receipt))
                (Installed id) (sent id (answered h)) _ _
                (advance-Follows CanFail IsRefused This (sent id (answered h)) (mined id) _ _
                  (at_unconfirmed id) (λ hist. wait id h))
                (λ receipt s e'. rw e' (settled-Follows id receipt receipt.success refl))))))

  -- The permission is serialized after an install that succeeded.
  abbrev pub Serialized : Text → Receipt → Text → GrantPhase → Type 0
  Serialized id receipt blob r =
      (receipt.success ≡ true) × (r ≡ serialized id receipt (answered blob))

  pub serialize-Follows :
      (id : Text) (receipt : Receipt)
      → receipt.success ≡ true
      → Follows This
          (mined id (answered receipt))
          (serialize_permission env smart_account_id sdk config)
          (Try (Serialized id receipt))
  unfolding serialize_permission
  serialize-Follows id receipt e =
      let p = mined id (answered receipt) in
      let G : Text → GrantPhase → Type 0 = λ blob r. r ≡ serialized id receipt (answered blob) in
      try_catch-Follows This (Try G) (Try (Serialized id receipt)) p _ _
        (advance-Follows CanFail IsRefused This p (serialized id receipt) _ _
          (at_unserialized id receipt) (λ hist. serialize id receipt e))
        (λ blob r h. (e, h))
        (λ x r h.
          caught_fail-Follows (Serialized id receipt) r _ _
            (Open-CanFail CanFail IsRefused refused-CanFail x r h))
