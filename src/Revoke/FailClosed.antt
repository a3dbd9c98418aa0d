-- ===== src/Revoke/FailClosed.antt =====
-- What the revoke of a delegation with a permission block does, whatever the SDK, the chain and Phoenix answer.
use cryptokorr.Common.{
  Text, codes, ◌≡◌, refl, Bool, true, false, ◌&&◌, &&-eq-true, Option, none, some, List, ◌∷◌, [],
  if◌then◌else◌,
}
use cryptokorr.Contracts.Permission.{PermissionBlock}
use cryptokorr.Contracts.Callback.{TxRef, revoked, revoke_failed, delegation_state_changed}
use cryptokorr.Errors.{
  callback_error, execution_error, validation_error, unsupported_error, not_implemented_error,
}
use cryptokorr.Effect.{
  answered, failed, Thrown, adapter, cryptographic, unexpected, Outcome, thrown, Receipt, Env,
  BaseClients, Event, World, History, ◌>>◌, pure,
}
use cryptokorr.Trace.{Course, begin, Delivered, Delivered-Sent, Fault-weaken, Verdict, Follows}
use cryptokorr.Trace.Rules.{
  pure-Follows, throw-Follows, bind-Follows, seq-Follows, try_catch-Follows,
}
use cryptokorr.Trace.Delivery.{callback-Delivered}
use cryptokorr.Execution.Pipeline.{TransferResult}
use cryptokorr.Execution.Swap.{truthy}
use cryptokorr.Revoke.Cryptographic.{
  OperatorConfig, Plugin, Sdk, uninstall_tx_ref, report_state, fail_revoke, on_revoke_error,
  check_pins_or_fail, settle_uninstall, report_reverted_uninstall, uninstall_permission,
  revoke_permission, execute_cryptographic_revoke,
}
use cryptokorr.Revoke.{execute_revoke}
use cryptokorr.Revoke.Protocol.{
  RevokePhase, started, loaded, sent, mined, finished, PluginPinned, IsPinnedBlock, HasOperator,
  CanFail, at_start, at_loaded, at_sent, at_unconfirmed, at_reverted, again, build_validator,
  build_account, uninstall, wait, confirm, fail, IsFailed, Try,
}
use cryptokorr.Trace.Attempts.{
  Open, Open-CanFail, Undelivered-Open, and_then-Follows, then-Follows, stay-Follows,
  advance-Follows,
}
use cryptokorr.Revoke.Protocol.Stages.{Step, check_pins-Follows, load_plugin-Follows}

failed-CanFail : (r : RevokePhase) → IsFailed r → CanFail r
failed-CanFail r h = rw h again

module _ (env : Env) (sdk : Sdk) (config : OperatorConfig) (block : PermissionBlock)
    (smart_account_id delegation_id reason : Text) where
  abbrev This : History → RevokePhase → Event → RevokePhase → Type 0
  This = Step sdk config block smart_account_id delegation_id reason

  report_failed-Follows :
      (p : RevokePhase) (text : Text) (refs : Option (List TxRef))
      → CanFail p
      → Follows This p
          (report_state env smart_account_id delegation_id revoke_failed text refs)
          (Delivered p (finished revoke_failed))
  unfolding report_state
  report_failed-Follows p text refs c =
      callback-Delivered This env p (finished revoke_failed)
        (λ id now.
          delegation_state_changed id smart_account_id delegation_id revoke_failed text refs none
            now)
        (λ id now hist. fail id text now refs c)

  fail_revoke-Follows :
      {A : Type 0} (Got : A → RevokePhase → Type 0) (p : RevokePhase) (code message : Text)
      → CanFail p
      → Follows This p
          (fail_revoke env smart_account_id delegation_id code message)
          (Verdict Got IsFailed)
  unfolding fail_revoke
  fail_revoke-Follows Got p code message c =
      seq-Follows This (Delivered p (finished revoke_failed)) (Verdict Got IsFailed) p _ _
        (report_failed-Follows p code none c)
        (λ u r e. throw-Follows This (Verdict Got IsFailed) r _ e)
        (λ e r h.
          Fault-weaken IsFailed e r (Delivered-Sent p (finished revoke_failed) (thrown e) r h))

  on_revoke_error-Follows :
      {A : Type 0} (Got : A → RevokePhase → Type 0) (e : Thrown) (p : RevokePhase)
      → Open CanFail IsFailed e p
      → Follows This p (on_revoke_error env smart_account_id delegation_id e) (Verdict Got IsFailed)
  unfolding on_revoke_error
  on_revoke_error-Follows Got (adapter (execution_error code message)) p h =
      throw-Follows This (Verdict Got IsFailed) p _ h
  on_revoke_error-Follows Got (adapter (callback_error message)) p h =
      fail_revoke-Follows Got p _ _ h
  on_revoke_error-Follows Got (adapter (validation_error message)) p h =
      fail_revoke-Follows Got p _ _ h
  on_revoke_error-Follows Got (adapter (unsupported_error message)) p h =
      fail_revoke-Follows Got p _ _ h
  on_revoke_error-Follows Got (adapter (not_implemented_error message)) p h =
      fail_revoke-Follows Got p _ _ h
  on_revoke_error-Follows Got (cryptographic code message) p h = fail_revoke-Follows Got p _ _ h
  on_revoke_error-Follows Got (unexpected message) p h = fail_revoke-Follows Got p _ _ h

  -- The uninstall that the phase holds succeeded.
  abbrev Mined : Text × Receipt → RevokePhase → Type 0
  Mined m r = (m.1.success ≡ true) × (r ≡ mined m.0 (answered m.1))

  settled-Follows :
      (h : Text) (receipt : Receipt) (b : Bool)
      → receipt.success ≡ b
      → Follows This
          (mined h (answered receipt))
          (if b
            then pure (h, receipt)
            else report_reverted_uninstall env smart_account_id delegation_id h receipt)
          (Try Mined)
  unfolding report_reverted_uninstall
  settled-Follows h receipt true e =
      pure-Follows This (Try Mined) (mined h (answered receipt)) (h, receipt) (e, refl)
  settled-Follows h receipt false e =
      let p = mined h (answered receipt) in
      seq-Follows This (Delivered p (finished revoke_failed)) (Try Mined) p _ _
        (report_failed-Follows p _ _ (at_reverted h receipt e))
        (λ u r x. throw-Follows This (Try Mined) r _ x)
        (λ x r k.
          Undelivered-Open CanFail IsFailed p (finished revoke_failed) x r (at_reverted h receipt e)
            again k)

  uninstall_permission-Follows :
      (key : Text)
      → HasOperator config
      → IsPinnedBlock sdk block
      → Follows This started
          (uninstall_permission env smart_account_id delegation_id sdk block key)
          (Try Mined)
  unfolding uninstall_permission settle_uninstall
  uninstall_permission-Follows key o k =
      then-Follows CanFail IsFailed This (λ u r. r ≡ started) Mined started _ _
        (stay-Follows CanFail IsFailed This started _ _ at_start (λ hist. build_validator o k))
        (λ u q e. rw e (
          then-Follows CanFail IsFailed This
            (λ u r. (plugin : Plugin) × PluginPinned plugin × (r ≡ loaded (answered (some plugin))))
            Mined started _ _
            (load_plugin-Follows sdk config block smart_account_id delegation_id reason)
            (λ u r x. rw x.2 (
              then-Follows CanFail IsFailed This (λ v s. s ≡ loaded (answered (some x.0))) Mined
                (loaded (answered (some x.0))) _ _
                (stay-Follows CanFail IsFailed This (loaded (answered (some x.0))) _ _
                  (at_loaded (answered (some x.0))) (λ hist. build_account (answered (some x.0))))
                (λ v s e'. rw e' (
                  and_then-Follows CanFail IsFailed This (λ h t. t ≡ sent (answered h)) Mined
                    (loaded (answered (some x.0))) _ _
                    (advance-Follows CanFail IsFailed This (loaded (answered (some x.0))) sent _ _
                      (λ m. at_sent (failed m)) (λ hist. uninstall x.0 o k x.1))
                    (λ h t e''. rw e'' (
                      and_then-Follows CanFail IsFailed This
                        (λ receipt v'. v' ≡ mined h (answered receipt)) Mined (sent (answered h)) _
                        _
                        (advance-Follows CanFail IsFailed This (sent (answered h)) (mined h) _ _
                          (at_unconfirmed h) (λ hist. wait h))
                        (λ receipt v' e4.
                          rw e4 (settled-Follows h receipt receipt.success refl))))))))))

  abbrev pub Revoked : Outcome TransferResult → RevokePhase → Type 0
  Revoked = Verdict (λ result r. r ≡ finished revoked) IsFailed

  pinned-Follows :
      Follows This started
        (check_pins_or_fail env smart_account_id delegation_id sdk block)
        (Verdict (λ u r. IsPinnedBlock sdk block × (r ≡ started)) IsFailed)
  unfolding check_pins_or_fail
  pinned-Follows =
      let G : Unit {0} → RevokePhase → Type 0 = λ u r. IsPinnedBlock sdk block × (r ≡ started) in
      try_catch-Follows This (Try G) (Verdict G IsFailed) started _ _
        (check_pins-Follows sdk config block smart_account_id delegation_id reason) (λ a q h. h)
        (λ e q h. fail_revoke-Follows G q _ _ (Open-CanFail CanFail IsFailed failed-CanFail e q h))

  confirm-Follows :
      (m : Text × Receipt) (p : RevokePhase) (result : TransferResult)
      → Mined m p
      → Follows This p
          (report_state env smart_account_id delegation_id revoked reason
              (some (uninstall_tx_ref m.0 m.1 (codes "success") ∷ []))
            >> pure result)
          Revoked
  unfolding report_state
  confirm-Follows m p result h = rw h.1 (
      let q = mined m.0 (answered m.1) in
      seq-Follows This (Delivered q (finished revoked)) Revoked q _ _
        (callback-Delivered This env q (finished revoked) _
          (λ id now hist. confirm m.0 m.1 id now h.0))
        (λ u r e. pure-Follows This Revoked r _ e)
        (λ e r k. Fault-weaken IsFailed e r (Delivered-Sent q (finished revoked) (thrown e) r k)))

  revoke_permission-Follows :
      (key : Text)
      → HasOperator config
      → Follows This started
          (revoke_permission env smart_account_id delegation_id sdk block reason key)
          Revoked
  unfolding revoke_permission
  revoke_permission-Follows key o =
      seq-Follows This (Verdict (λ u r. IsPinnedBlock sdk block × (r ≡ started)) IsFailed) Revoked
        started _ _ pinned-Follows
        (λ u q k. rw k.1 (
          bind-Follows This (Verdict Mined IsFailed) Revoked started _ _
            (try_catch-Follows This (Try Mined) (Verdict Mined IsFailed) started _ _
              (uninstall_permission-Follows key o k.0) (λ a r h. h)
              (λ e r h. on_revoke_error-Follows Mined e r h))
            (λ m r h. confirm-Follows m r _ h) (λ e r h. h)))
        (λ e r h. h)

  configured-Follows :
      (b : Bool)
      → (truthy config.operator_private_key && truthy config.operator_address) ≡ b
      → Follows This started
          (execute_cryptographic_revoke env smart_account_id delegation_id sdk block reason config)
          Revoked
  unfolding execute_cryptographic_revoke
  configured-Follows true e =
      let (key, address) =
        &&-eq-true (truthy config.operator_private_key) (truthy config.operator_address) e in
      rw e (
        revoke_permission-Follows _
          (record { operator_private_key = key; operator_address = address }))
  configured-Follows false e =
      rw e (fail_revoke-Follows (λ result r. r ≡ finished revoked) started _ _ at_start)

  -- In whatever world it starts, the revoke of a delegation with a permission block only does what its
  -- protocol allows: it asks for the uninstall only with an operator key and address, a block whose
  -- validation id, package version and session signer are as pinned, and a plugin that the
  -- deserializer returned with at least one policy and pinned ones only; it reports `revoked` only on a
  -- successful receipt of that uninstall; and it never sends the UserOperation of the sentinel. A
  -- result means that `revoked` came last, an `ExecutionError` that `revoke_failed` did, and it throws
  -- nothing else but a `CallbackError`.
  pub execute_revoke-Course :
      (clients : BaseClients) (w : World)
      → (q : RevokePhase) × Course This started w.history q
          (execute_revoke env sdk clients config smart_account_id delegation_id reason
            (some block)
            w).1.history
        × Revoked
            (execute_revoke env sdk clients config smart_account_id delegation_id reason
              (some block)
              w).0
            q
  unfolding execute_revoke
  execute_revoke-Course clients w = configured-Follows _ refl started w.history w begin
