-- ===== src/Dispatch/Swap/Admission.antt =====
-- What a swap dispatch does, on every body.
use cryptokorr.Common.{ℕ, Text, ◌≡◌, refl, inl, inr, true, Option, none, some}
use cryptokorr.Config.Chains.{base_sepolia_chain, is_supported_chain, is_supported_swap_chain}
use cryptokorr.Contracts.Dispatch.{DispatchSwap, swap_schema}
use cryptokorr.Errors.{status_code}
use cryptokorr.Effect.{Env, BaseClients, World, Outcome}
use cryptokorr.Execution.Pipeline.{TransferStatus}
use cryptokorr.Execution.Aborts.{
  OnlyAborts, send_aborted-OnlyAborts, bind_pure-OnlyAborts, then_pure-OnlyAborts,
}
use cryptokorr.Execution.Swap.{
  SwapOutcome, refused, check_swap_envelope, execute_checked, execute_swap,
}
use cryptokorr.Execution.Protocol.{IsAborted, ExecutionState, Phase, finished}
use cryptokorr.Trace.{Verdict}
use cryptokorr.Execution.Protocol.Runs.{ending}
use cryptokorr.Dispatch.Gates.{
  Refuses, throw-Refuses, guard-Refuses, is_supported_chain_complete, is_supported_swap_chain_sound,
  is_supported_swap_chain_complete,
}
use cryptokorr.Dispatch.Swap.{
  DispatchStatus, aborted_because, confirmed, reverted, SwapDispatchResult, status_of, run_swap,
  dispatch_swap, handle_swap_dispatch,
}

-- A body that the handler accepts: only Base Sepolia, not Base.
pub record IsAdmitted (env : Env) (d : DispatchSwap) : Type 0 where
  pub valid : swap_schema env.zod d ≡ true
  pub chain : d.chain ≡ base_sepolia_chain

-- The last callback that a returned status stands for.
abbrev pub reported_state : DispatchStatus → ExecutionState
reported_state confirmed = ExecutionState.confirmed
reported_state reverted = ExecutionState.reverted
reported_state (aborted_because reason) = ExecutionState.aborted

pub reported_state-status_of : (s : TransferStatus) → reported_state (status_of s) ≡ ending s
reported_state-status_of TransferStatus.success = refl
reported_state-status_of TransferStatus.reverted = refl

abbrev pub Dispatched : Text → Outcome SwapDispatchResult → Phase → Type 0
Dispatched id =
    Verdict
      (λ result q. (result.execution_plan_id ≡ id) × (q ≡ finished (reported_state result.status)))
      IsAborted

-- The answer to a swap whose route was refused.
abbrev pub aborted_result : DispatchSwap → Text → SwapDispatchResult
aborted_result d reason = record {
  execution_plan_id = d.execution_plan_id;
  status = aborted_because reason;
}

module _ (env : Env) where
  -- A swap body that the handler does not accept is answered with a 400 or a 422, and nothing else
  -- happens. That includes every swap on Base mainnet.
  pub handle_swap_dispatch-Refuses :
      (clients : Option BaseClients) (now : ℕ) (body : Option DispatchSwap) (w : World)
      → ((d : DispatchSwap) → body ≡ some d → ¬ IsAdmitted env d)
      → Refuses (handle_swap_dispatch env clients now body) w
  unfolding handle_swap_dispatch status_code
  handle_swap_dispatch-Refuses clients now none w h = throw-Refuses _ w (inl refl)
  handle_swap_dispatch-Refuses clients now (some d) w h =
      guard-Refuses (swap_schema env.zod d) _ _ w (inl refl) λ valid.
        guard-Refuses (is_supported_chain d.chain) _ _ w (inr refl) λ chain.
          guard-Refuses (is_supported_swap_chain d.chain) _ _ w (inr refl) λ narrow. absurd (
            h d refl
              (record { valid = valid; chain = is_supported_swap_chain_sound d.chain narrow }))

  admitted-run :
      (clients : Option BaseClients) (now : ℕ) (d : DispatchSwap)
      → IsAdmitted env d
      → handle_swap_dispatch env clients now (some d) ≡ run_swap env clients now d
  unfolding handle_swap_dispatch dispatch_swap
  admitted-run clients now d a = rw (
    a.valid,
    is_supported_chain_complete d.chain (inr a.chain),
    is_supported_swap_chain_complete d.chain a.chain,
  )

  refused-OnlyAborts :
      (clients : BaseClients) (d : DispatchSwap) (reason : Text) (now : ℕ) (w : World)
      → check_swap_envelope env.date_parse d now ≡ refused reason
      → OnlyAborts env d.execution_plan_id reason
          (aborted_result d reason)
          (run_swap env (some clients) now d)
          w
  unfolding run_swap execute_swap execute_checked
  refused-OnlyAborts clients d reason now w e = rw e (
      bind_pure-OnlyAborts env d.execution_plan_id reason _ _ (SwapOutcome.aborted reason) w (
        then_pure-OnlyAborts env d.execution_plan_id reason _ tt (SwapOutcome.aborted reason) w
          (send_aborted-OnlyAborts env d.execution_plan_id reason w)))

  -- An accepted swap whose route does not pass its checks sends no UserOperation: if the
  -- `execution.aborted` with the reason of the refusal passes its own schema, posting it is the only
  -- event, and the swap is answered as aborted for that reason if the response is ok, else by a
  -- `CallbackError`; if it does not pass its schema, nothing happens but a `CallbackError`.
  pub handle_swap_dispatch-aborts :
      (clients : BaseClients) (d : DispatchSwap) (reason : Text) (now : ℕ) (w : World)
      → IsAdmitted env d
      → check_swap_envelope env.date_parse d now ≡ refused reason
      → OnlyAborts env d.execution_plan_id reason
          (aborted_result d reason)
          (handle_swap_dispatch env (some clients) now (some d))
          w
  handle_swap_dispatch-aborts clients d reason now w a e =
      rw (admitted-run (some clients) now d a) (refused-OnlyAborts clients d reason now w e)
