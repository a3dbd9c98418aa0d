-- ===== src/Dispatch/Transfer.antt =====
-- chain_adapter/src/dispatch/transfer.ts. `none` is a body without the schema's structure.
pub mod Admission
use cryptokorr.Common.{Text, codes, ◌++◌, Bool, Option, none, some, if◌then◌else◌}
use cryptokorr.Config.Chains.{is_supported_chain}
use cryptokorr.Config.Assets.{is_supported_asset}
use cryptokorr.Contracts.Dispatch.{DispatchTransfer, transfer_schema}
use cryptokorr.Errors.{validation_error, unsupported_error}
use cryptokorr.Effect.{Env, BaseClients, adapter, Action, pure, throw, ◌>>=◌, ◌>>◌}
use cryptokorr.Execution.Transfer.{execute_transfer}

-- `accepted` is always true.
pub record TransferDispatchResult : Type 0 where
  pub execution_plan_id : Text

module _ (env : Env) (clients : BaseClients) (usdc_address : Text) where
  unfoldable pub run_transfer : DispatchTransfer → Action TransferDispatchResult
  run_transfer d = do
    execute_transfer env clients usdc_address d
    pure (record { execution_plan_id = d.execution_plan_id })

  unfoldable pub dispatch_transfer : DispatchTransfer → Action TransferDispatchResult
  unfolding run_transfer
  dispatch_transfer d =
      if is_supported_chain d.chain
      then if is_supported_asset d.asset
        then run_transfer d
        else throw (
            adapter
              (unsupported_error (codes "Asset \"" ++ d.asset ++ codes "\" is not supported")))
      else throw
          (adapter (unsupported_error (codes "Chain \"" ++ d.chain ++ codes "\" is not supported")))

  unfoldable pub handle_transfer_dispatch : Option DispatchTransfer → Action TransferDispatchResult
  unfolding dispatch_transfer
  handle_transfer_dispatch none =
      throw (adapter (validation_error (codes "Invalid transfer dispatch payload")))
  handle_transfer_dispatch (some d) =
      if transfer_schema env.zod d
      then dispatch_transfer d
      else throw (adapter (validation_error (codes "Invalid transfer dispatch payload")))
