-- ===== src/Execution/Morpho.antt =====
-- chain_adapter/src/chains/base/morpho_deposit.ts.
use cryptokorr.Common.{ℕ, Text, codes, Option, none, some, [], ◌∷◌, ◌++◌}
use cryptokorr.Config.Assets.{parse_amount}
use cryptokorr.Contracts.Dispatch.{DispatchMorphoDeposit}
use cryptokorr.Effect.{Reply, Env, BaseClients, unexpected, Action, throw}
use cryptokorr.UserOp.{and_then, build_execute_batch_call_data}
use cryptokorr.Execution.Pipeline.{Plan, TransferResult, run_plan}
use cryptokorr.Execution.Transfer.{usdc_decimals}

abbrev pub bundler_label : Text
bundler_label = codes "configured"

-- The two calls are encoded in the order in which the source lists them.
unfoldable pub build_morpho_deposit_batch_call_data : Env → Text → Text → Text → ℕ → Reply Text
unfolding and_then build_execute_batch_call_data
build_morpho_deposit_batch_call_data env usdc_address vault_address receiver amount =
    and_then (env.encode_approve vault_address amount) λ approve.
      and_then (env.encode_deposit amount receiver) λ deposit. build_execute_batch_call_data env (
        record { target = usdc_address; value = 0; payload = approve }
        ∷ record { target = vault_address; value = 0; payload = deposit }
        ∷ [])

module _ (env : Env) (clients : BaseClients) (usdc_address : Text) (d : DispatchMorphoDeposit) where
  -- The shares go to the adapter's smart account, whatever `receiver` the dispatch names.
  unfoldable pub morpho_deposit_plan : ℕ → Plan
  morpho_deposit_plan amount_base_units = record {
    execution_plan_id = d.execution_plan_id;
    chain = d.chain;
    bundler = bundler_label;
    call_data =
        build_morpho_deposit_batch_call_data env usdc_address d.vault_address
          clients.smart_account_address amount_base_units;
    build_failed_text = codes "Morpho deposit UserOp build failed: ";
    rejected_text = codes "Bundler rejected Morpho deposit UserOp: ";
    confirmation_failed_text = codes "Morpho deposit confirmation failed: ";
    balance_changes = record { asset = d.asset; amount = codes "-" ++ d.amount } ∷ [];
    revert_reason = λ reason. codes "morpho_deposit_reverted";
  }

  unfoldable pub morpho_deposit_amount : Option ℕ → Action TransferResult
  morpho_deposit_amount none = throw (unexpected (codes "Cannot convert to a BigInt"))
  morpho_deposit_amount (some n) = run_plan env clients (morpho_deposit_plan n)

  unfoldable pub execute_morpho_deposit : Action TransferResult
  unfolding morpho_deposit_amount
  execute_morpho_deposit = morpho_deposit_amount (parse_amount d.amount usdc_decimals)
