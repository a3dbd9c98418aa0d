-- ===== src/Grant/FailClosed.antt =====
-- What a grant does, whatever the SDK, the chain and Phoenix answer.
use cryptokorr.Common.{ℕ, ◌==◌, Text, ◌≡◌, refl, Bool, true, false, ◌&&◌, &&-eq-true, arith}
use cryptokorr.Effect.{answered, Outcome, thrown, Receipt, Env, Event, History, World, pure, ◌>>◌}
use cryptokorr.Trace.{Course, begin, Delivered, Delivered-Sent, Fault-weaken, Verdict, Follows}
use cryptokorr.Trace.Rules.{pure-Follows, bind-Follows, seq-Follows, try_catch-Follows}
use cryptokorr.Trace.Delivery.{callback-Delivered}
use cryptokorr.Trace.Attempts.{and_then-Follows, then-Follows, stay-Follows, advance-Follows}
use cryptokorr.Execution.Swap.{truthy}
use cryptokorr.Grant.{
  GrantSdk, GrantConfig, GrantResult, grant_result, report_granted, install_and_serialize,
  build_and_install, install_and_report, execute_grant,
}
use cryptokorr.Grant.Protocol.{
  GrantPhase, started, planned, mined, serialized, confirmed, IsAllowed, CanFail, Legal, at_start,
  at_planned, build_validator, build_signer, build_permission, build_account, confirm, IsRefused,
  Try,
}
use cryptokorr.Grant.Protocol.Stages.{
  Installed, Serialized, last_fail-Follows, caught_fail-Follows, on_error-Follows, encoder-Follows,
  install_permission-Follows, serialize-Follows,
}

-- The result that the log gives.
data Ready (sdk : GrantSdk) (config : GrantConfig) : GrantResult → GrantPhase → Type 0 where
  ready :
      (id address blob : Text) (receipt : Receipt)
      → receipt.success ≡ true
      → sdk.address_of_key config.delegation_signer_key ≡ answered address
      → Ready sdk config
          (grant_result sdk.hex id address receipt blob)
          (serialized id receipt (answered blob))

abbrev pub Granted : Outcome GrantResult → GrantPhase → Type 0
Granted = Verdict (λ result r. r ≡ confirmed result) IsRefused

module _ (env : Env) (sdk : GrantSdk) (config : GrantConfig) (chain_id : ℕ)
    (smart_account_id : Text) where
  abbrev Here : History → GrantPhase → Event → GrantPhase → Type 0
  Here = Legal sdk config chain_id smart_account_id

  install_and_serialize-Follows :
      (id address : Text)
      → IsAllowed config chain_id
      → sdk.address_of_key config.delegation_signer_key ≡ answered address
      → Follows Here
          (planned (answered id))
          (install_and_serialize env smart_account_id sdk config id address)
          (Try (Ready sdk config))
  unfolding install_and_serialize
  install_and_serialize-Follows id address a k =
      let p = planned (answered id) in
      let G : Receipt → GrantPhase → Type 0 =
        Installed env sdk config chain_id smart_account_id id in
      then-Follows CanFail IsRefused Here (λ u r. r ≡ p) (Ready sdk config) p _ _
        (stay-Follows CanFail IsRefused Here p _ _ (at_planned (answered id))
          (λ hist. build_account (answered id)))
        (λ u q e. rw e (
          and_then-Follows CanFail IsRefused Here G (Ready sdk config) p _ _
            (try_catch-Follows Here (Try G) (Try G) p _ _
              (install_permission-Follows env sdk config chain_id smart_account_id id a)
              (λ receipt r h. h)
              (on_error-Follows env sdk config chain_id smart_account_id (Try G) _ (λ c m r h. h)
                (caught_fail-Follows env sdk config chain_id smart_account_id G)))
            (λ receipt r h. rw h.1 (
              and_then-Follows CanFail IsRefused Here
                (Serialized env sdk config chain_id smart_account_id id receipt) (Ready sdk config)
                (mined id (answered receipt)) _ _
                (serialize-Follows env sdk config chain_id smart_account_id id receipt h.0)
                (λ blob s h'. rw h'.1 (
                  pure-Follows Here (Try (Ready sdk config)) (serialized id receipt (answered blob))
                    _ (ready id address blob receipt h.0 k)))))))

  build_and_install-Follows :
      (key : Text)
      → IsAllowed config chain_id
      → Follows Here started
          (build_and_install env smart_account_id sdk config key)
          (Try (Ready sdk config))
  unfolding build_and_install
  build_and_install-Follows key a =
      let H = Ready sdk config in
      then-Follows CanFail IsRefused Here _ H started _ _
        (encoder-Follows env sdk config chain_id smart_account_id started _ at_start)
        (λ o q h. rw h.1 (
          then-Follows CanFail IsRefused Here (λ u r. r ≡ started) H started _ _
            (stay-Follows CanFail IsRefused Here started _ _ at_start (λ hist. build_validator a))
            (λ u r e. rw e (
              and_then-Follows CanFail IsRefused Here _ H started _ _
                (encoder-Follows env sdk config chain_id smart_account_id started _ at_start)
                (λ address s k. rw k.1 (
                  then-Follows CanFail IsRefused Here (λ u r. r ≡ started) H started _ _
                    (stay-Follows CanFail IsRefused Here started _ _ at_start
                      (λ hist. build_signer))
                    (λ v t e'. rw e' (
                      and_then-Follows CanFail IsRefused Here (λ id r. r ≡ planned (answered id)) H
                        started _ _
                        (advance-Follows CanFail IsRefused Here started planned _ _
                          (λ m. at_planned _) (λ hist. build_permission))
                        (λ id w e4. rw e4 (install_and_serialize-Follows id address a k.0))))))))))

  report-Follows :
      (result : GrantResult) (p : GrantPhase)
      → Ready sdk config result p
      → Follows Here p (report_granted env smart_account_id result >> pure result) Granted
  unfolding report_granted
  report-Follows _ _ (ready id address blob receipt s k) =
      let p = serialized id receipt (answered blob) in
      let result = grant_result sdk.hex id address receipt blob in
      seq-Follows Here (Delivered p (confirmed result)) Granted p _ _
        (callback-Delivered Here env p (confirmed result) _
          (λ callback now hist. confirm id address blob callback now receipt s k))
        (λ u r e. pure-Follows Here Granted r _ e)
        (λ e r h. Fault-weaken IsRefused e r (Delivered-Sent p (confirmed result) (thrown e) r h))

  install_and_report-Follows :
      IsAllowed config chain_id
      → Follows Here started (install_and_report env smart_account_id sdk config) Granted
  unfolding install_and_report
  install_and_report-Follows a =
      let H = Ready sdk config in
      bind-Follows Here (Verdict H IsRefused) Granted started _ _
        (try_catch-Follows Here (Try H) (Verdict H IsRefused) started _ _
          (build_and_install-Follows _ a) (λ result r h. h)
          (on_error-Follows env sdk config chain_id smart_account_id (Verdict H IsRefused) _
            (λ c m r h. h) (last_fail-Follows env sdk config chain_id smart_account_id H)))
        report-Follows (λ e r h. h)

  guarded-Follows :
      (b c : Bool)
      → (truthy config.operator.operator_private_key && truthy config.operator.operator_address) ≡ b
      → (chain_id == config.base_chain_id) ≡ c
      → Follows Here started (execute_grant env smart_account_id sdk config chain_id) Granted
  unfolding execute_grant
  guarded-Follows false c e e' =
      rw e (last_fail-Follows env sdk config chain_id smart_account_id _ started _ _ at_start)
  guarded-Follows true false e e' =
      rw (e, e') (last_fail-Follows env sdk config chain_id smart_account_id _ started _ _ at_start)
  guarded-Follows true true e e' =
      let (key, address) =
        &&-eq-true (truthy config.operator.operator_private_key)
          (truthy config.operator.operator_address) e in
      rw (e, e')
        (install_and_report-Follows (record {
          has_operator = record { operator_private_key = key; operator_address = address };
          same_chain = ground arith;
        }))

  -- In whatever world it starts, a grant only does what its protocol allows: it builds the validator
  -- and submits the install only with an operator key and address and for the chain that the adapter is
  -- configured for; the install is one UserOperation of the inert call, with the fixed gas limits; the
  -- permission is serialized only after a successful receipt of that install; `granted` is reported
  -- only then, with the block made of what the SDK and the chain answered, and `grant_failed`, which
  -- carries no block, never once the receipt was successful, unless the serialization failed. A result
  -- means that the `granted` callback of that very result came last, an `ExecutionError` that
  -- `grant_failed` did, and it throws nothing else but a `CallbackError`.
  pub execute_grant-Course :
      (w : World)
      → (q : GrantPhase) × Course Here started w.history q
          (execute_grant env smart_account_id sdk config chain_id w).1.history
        × Granted (execute_grant env smart_account_id sdk config chain_id w).0 q
  execute_grant-Course w = guarded-Follows _ _ refl refl started w.history w begin
