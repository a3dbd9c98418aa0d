-- ===== src/Execution/Protocol/Runs.antt =====
-- Every run of a plan takes a legal course and ends in the phase that its outcome tells.
use cryptokorr.Common.{Text, Bool, true, false, ◌≡◌, refl, if◌then◌else◌}
use cryptokorr.Contracts.Callback.{CallbackPayload}
use cryptokorr.Effect.{
  UserOp, History, answered, Receipt, Outcome, Env, BaseClients, posted, pure, ◌>>=◌, ◌>>◌, now_iso,
  World,
}
use cryptokorr.Callbacks
use cryptokorr.Callbacks.{next_callback_id}
use cryptokorr.UserOp.{format_nonce_hex}
use cryptokorr.Execution.Pipeline.{
  Plan, TransferResult, TransferStatus, success, reverted, report_confirmed, report_reverted,
  run_plan,
}
use cryptokorr.Execution.Protocol.{
  IsAborted, Legal, ExecutionState, Phase, idle, announced, awaiting, finished, confirm, revert,
  Course,
}
use cryptokorr.Trace.{begin, Follows, Stayed, Verdict, Sent, Fault-weaken}
use cryptokorr.Trace.Rules.{pure-Follows, bind-Follows, seq-Follows}
use cryptokorr.Trace.Delivery.{next_callback_id-Follows, now_iso-Follows, send-Follows}
use cryptokorr.Execution.Protocol.Stages.{
  Built, Accepted, build_and_sign-Follows, submit-Follows, announce-Follows,
  wait_for_receipt-Follows,
}

abbrev pub ending : TransferStatus → ExecutionState
ending success = ExecutionState.confirmed
ending reverted = ExecutionState.reverted

abbrev pub Reported : TransferResult → Phase → Type 0
Reported result r = r ≡ finished (ending result.status)

-- How the outcome of an execution tells the phase in which it ended: a result, that the callback of
-- its status was accepted; an `ExecutionError`, that the abort was; a `CallbackError`, nothing more.
abbrev pub Concluded : Outcome TransferResult → Phase → Type 0
Concluded = Verdict Reported IsAborted

module _ (env : Env) (clients : BaseClients) (plan : Plan) where
  report-Follows :
      (p : Phase) (result : TransferResult) (payload : Text → Text → CallbackPayload)
      → ((id now : Text) (hist : History)
          → Legal env clients plan hist p
              (posted (payload id now))
              (finished (ending result.status)))
      → Follows
          (Legal env clients plan)
          p
          (next_callback_id >>= λ id.
            now_iso env >>= λ now. Callbacks.send env (payload id now) >> pure result)
          Concluded
  report-Follows p result payload l =
      let q = finished (ending result.status) in
      bind-Follows (Legal env clients plan) (Stayed p) Concluded p _ _
        (next_callback_id-Follows (Legal env clients plan) env p)
        (λ id r e. rw e (
          bind-Follows (Legal env clients plan) (Stayed p) Concluded p _ _
            (now_iso-Follows (Legal env clients plan) env p)
            (λ now r' e'. rw e' (
              seq-Follows (Legal env clients plan) (Sent q) Concluded p _ _
                (send-Follows (Legal env clients plan) env p q (payload id now) (l id now))
                (λ u s e''. pure-Follows (Legal env clients plan) Concluded s result e'')
                (Fault-weaken IsAborted)))
            (λ x r' h. absurd h)))
        (λ x r h. absurd h)

  receipt-Follows :
      (built : UserOp × Text) (receipt : Receipt) (b : Bool)
      → receipt.success ≡ b
      → Follows
          (Legal env clients plan)
          (awaiting built (answered receipt))
          (if b
            then report_confirmed env clients plan built.1 (format_nonce_hex built.0.nonce) receipt
            else report_reverted env clients plan built.1 (format_nonce_hex built.0.nonce) receipt)
          Concluded
  unfolding report_confirmed report_reverted
  receipt-Follows built receipt true e =
      report-Follows (awaiting built (answered receipt)) _ _
        (λ id now hist. confirm built receipt id now e)
  receipt-Follows built receipt false e =
      report-Follows (awaiting built (answered receipt)) _ _
        (λ id now hist. revert built receipt id now e)

  pub run_plan-Follows : Follows (Legal env clients plan) idle (run_plan env clients plan) Concluded
  unfolding run_plan
  run_plan-Follows =
      bind-Follows (Legal env clients plan) (Verdict (Built env clients plan) IsAborted) Concluded
        idle _ _ (build_and_sign-Follows env clients plan)
        (λ built r b. rw b.1 (
          seq-Follows (Legal env clients plan)
            (Verdict (λ u s. Accepted env clients plan built s) IsAborted) Concluded idle _ _
            (submit-Follows env clients plan built b.0)
            (λ u s a.
              seq-Follows (Legal env clients plan) (Sent (announced built)) Concluded s _ _
                (announce-Follows env clients plan built s a)
                (λ u' t e'. rw e' (
                  bind-Follows (Legal env clients plan)
                    (Verdict (λ receipt v. v ≡ awaiting built (answered receipt)) IsAborted)
                    Concluded (announced built) _ _
                    (wait_for_receipt-Follows env clients plan built)
                    (λ receipt v e''. rw e'' (receipt-Follows built receipt receipt.success refl))
                    (λ x v h. h)))
                (Fault-weaken IsAborted))
            (λ x s h. h)))
        (λ x r h. h)

  -- In whatever world it starts, a run of a plan only adds events that are legal in their phase:
  -- one UserOperation at most, the planned one; its local hash announced only if the bundler
  -- returned that hash; the same hash waited for; `execution.confirmed` only on a successful receipt
  -- of the bundler, `execution.reverted` only on one that failed; `execution.aborted` only if nothing
  -- was submitted, or the submission was rejected, the hashes differ or there is no receipt; and no
  -- event after the final callback.
  -- A result means that the callback of its status came last, an `ExecutionError` that
  -- `execution.aborted` did, and the run throws nothing else but a `CallbackError`.
  pub run_plan-Course :
      (w : World)
      → (q : Phase) × Course env clients plan w.history q (run_plan env clients plan w).1.history
        × Concluded (run_plan env clients plan w).0 q
  run_plan-Course w = run_plan-Follows idle w.history w begin
