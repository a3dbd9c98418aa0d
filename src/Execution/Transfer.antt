-- ===== src/Execution/Transfer.antt =====
-- chain_adapter/src/chains/base/transfer.ts.
use cryptokorr.Common.{ℕ, Text, codes, or_else, Option, none, some, [], ◌∷◌, ◌++◌}
use cryptokorr.Config.Assets.{parse_amount}
use cryptokorr.Contracts.Dispatch.{DispatchTransfer}
use cryptokorr.Effect.{Env, BaseClients, unexpected, Action, throw}
use cryptokorr.UserOp.{build_transfer_call_data}
use cryptokorr.Execution.Pipeline.{Plan, TransferResult, run_plan}

-- chain_adapter/src/chains/base/usdc.ts
abbrev pub usdc_decimals : ℕ
usdc_decimals = 6

abbrev pub bundler_label : Text
bundler_label = codes "base-v07-bundler"

module _ (env : Env) (clients : BaseClients) (usdc_address : Text) (d : DispatchTransfer) where
  unfoldable pub transfer_plan : ℕ → Plan
  transfer_plan amount_base_units = record {
    execution_plan_id = d.execution_plan_id;
    chain = d.chain;
    bundler = bundler_label;
    call_data = build_transfer_call_data env usdc_address d.target_address amount_base_units;
    build_failed_text = codes "UserOp build failed: ";
    rejected_text = codes "Bundler rejected UserOp: ";
    confirmation_failed_text = codes "UserOp confirmation failed: ";
    balance_changes = record { asset = d.asset; amount = codes "-" ++ d.amount } ∷ [];
    revert_reason = λ reason. or_else reason (codes "userop_reverted");
  }

  -- What `parseAmount` throws is thrown before the first `try`.
  unfoldable pub transfer_amount : Option ℕ → Action TransferResult
  transfer_amount none = throw (unexpected (codes "Cannot convert to a BigInt"))
  transfer_amount (some n) = run_plan env clients (transfer_plan n)

  unfoldable pub execute_transfer : Action TransferResult
  unfolding transfer_amount
  execute_transfer = transfer_amount (parse_amount d.amount usdc_decimals)
