-- ===== src/Dispatch/Swap.antt =====
-- chain_adapter/src/dispatch/swap.ts. `none` is a body without the schema's structure, or no
-- chain clients; `now` is the time in milliseconds that `executeSwap` defaults to.
pub mod Admission
use cryptokorr.Common.{ℕ, Text, codes, ◌++◌, Option, none, some, if◌then◌else◌}
use cryptokorr.Config.Chains.{is_supported_chain, is_supported_swap_chain}
use cryptokorr.Contracts.Dispatch.{DispatchSwap, swap_schema}
use cryptokorr.Errors.{validation_error, unsupported_error}
use cryptokorr.Effect.{Env, BaseClients, adapter, Action, pure, throw, ◌>>=◌, ◌>>◌}
use cryptokorr.Execution.Pipeline.{TransferStatus, send_aborted}
use cryptokorr.Execution.Swap.{SwapOutcome, executed, aborted, execute_swap}

-- `status` and, for an abort, its `reason`. No handler returns the status "executing".
pub data DispatchStatus : Type 0 where
  aborted_because : Text → DispatchStatus
  confirmed reverted : DispatchStatus

pub record SwapDispatchResult : Type 0 where
  pub execution_plan_id : Text
  pub status : DispatchStatus

abbrev pub status_of : TransferStatus → DispatchStatus
status_of TransferStatus.success = confirmed
status_of TransferStatus.reverted = reverted

abbrev pub swap_status : SwapOutcome → DispatchStatus
swap_status (aborted reason) = aborted_because reason
swap_status (executed result) = status_of result.status

module _ (env : Env) where
  unfoldable pub abort_swap : DispatchSwap → Text → Action SwapDispatchResult
  abort_swap d reason = do
    send_aborted env d.execution_plan_id reason
    pure (record { execution_plan_id = d.execution_plan_id; status = aborted_because reason })

  unfoldable pub run_swap : Option BaseClients → ℕ → DispatchSwap → Action SwapDispatchResult
  unfolding abort_swap
  run_swap none now d = abort_swap d (codes "chain_clients_unavailable")
  run_swap (some clients) now d = do
    outcome ← execute_swap env clients d now
    pure (record { execution_plan_id = d.execution_plan_id; status = swap_status outcome })

  unfoldable pub dispatch_swap : Option BaseClients → ℕ → DispatchSwap → Action SwapDispatchResult
  unfolding run_swap
  dispatch_swap clients now d =
      if is_supported_chain d.chain
      then if is_supported_swap_chain d.chain
        then run_swap clients now d
        else throw (
            adapter (
              unsupported_error (
                codes "Chain \""
                ++ d.chain
                ++ codes "\" is not supported for swap dispatch (MVP is Base Sepolia only)")))
      else throw
          (adapter (unsupported_error (codes "Chain \"" ++ d.chain ++ codes "\" is not supported")))

  unfoldable pub handle_swap_dispatch :
      Option BaseClients → ℕ → Option DispatchSwap → Action SwapDispatchResult
  unfolding dispatch_swap
  handle_swap_dispatch clients now none =
      throw (adapter (validation_error (codes "Invalid swap dispatch payload")))
  handle_swap_dispatch clients now (some d) =
      if swap_schema env.zod d
      then dispatch_swap clients now d
      else throw (adapter (validation_error (codes "Invalid swap dispatch payload")))
