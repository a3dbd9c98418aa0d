-- ===== src/Execution/Swap.antt =====
-- chain_adapter/src/chains/base/swap.ts: the checks on a swap's route, and its execution.
mod Envelope
pub mod Requirement
mod Steps
pub mod Executable
unfoldable pub use Envelope.*
use cryptokorr.Common.{ℕ, Text, codes, or_else, [], ◌∷◌, ◌++◌}
use cryptokorr.Contracts.Dispatch.{DispatchSwap}
use cryptokorr.Effect.{Env, BaseClients, Action, pure, ◌>>=◌, ◌>>◌}
use cryptokorr.UserOp.{build_swap_batch_call_data}
use cryptokorr.Execution.Pipeline.{Plan, TransferResult, send_aborted, run_plan}
use cryptokorr.Execution.Transfer.{bundler_label}

-- `SwapExecutionResult | { aborted: true; reason: string }`
pub data SwapOutcome : Type 0 where
  executed : TransferResult → SwapOutcome
  aborted : Text → SwapOutcome

module _ (env : Env) (clients : BaseClients) (d : DispatchSwap) where
  unfoldable pub swap_plan : CheckedSwap → Plan
  swap_plan checked = record {
    execution_plan_id = d.execution_plan_id;
    chain = d.chain;
    bundler = bundler_label;
    call_data =
        build_swap_batch_call_data env checked.input_token checked.spender checked.swap_target
          checked.swap_value checked.swap_calldata checked.input_amount_base_units;
    build_failed_text = codes "Swap UserOp build failed: ";
    rejected_text = codes "Bundler rejected swap UserOp: ";
    confirmation_failed_text = codes "Swap UserOp confirmation failed: ";
    balance_changes =
        record { asset = d.input_asset; amount = codes "-" ++ d.input_amount }
        ∷ record { asset = d.output_asset; amount = d.expected_output }
        ∷ [];
    revert_reason = λ reason. or_else reason (codes "userop_reverted");
  }

  unfoldable pub execute_checked : Checked CheckedSwap → Action SwapOutcome
  execute_checked (refused reason) = do
    send_aborted env d.execution_plan_id reason
    pure (aborted reason)
  execute_checked (passed checked) = do
    result ← run_plan env clients (swap_plan checked)
    pure (executed result)

  -- `now` is in milliseconds since 1970.
  unfoldable pub execute_swap : ℕ → Action SwapOutcome
  unfolding execute_checked
  execute_swap now = execute_checked (check_swap_envelope env.date_parse d now)
