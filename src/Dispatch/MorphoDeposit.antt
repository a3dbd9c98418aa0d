-- ===== src/Dispatch/MorphoDeposit.antt =====
-- chain_adapter/src/dispatch/morpho_deposit.ts. `none` is a body without the schema's structure, or
-- no chain clients.
pub mod Admission
use cryptokorr.Common.{Text, codes, ◌++◌, Option, none, some, if◌then◌else◌}
use cryptokorr.Config.Chains.{is_supported_chain, is_supported_morpho_deposit_chain}
use cryptokorr.Config.Assets.{is_supported_asset}
use cryptokorr.Contracts.Dispatch.{DispatchMorphoDeposit, morpho_deposit_schema}
use cryptokorr.Errors.{validation_error, unsupported_error}
use cryptokorr.Effect.{Env, BaseClients, adapter, Action, pure, throw, ◌>>=◌, ◌>>◌}
use cryptokorr.Execution.Pipeline.{send_aborted}
use cryptokorr.Execution.Morpho.{execute_morpho_deposit}
use cryptokorr.Dispatch.Swap.{DispatchStatus, aborted_because, status_of}

pub record MorphoDepositDispatchResult : Type 0 where
  pub execution_plan_id : Text
  pub status : DispatchStatus

module _ (env : Env) (usdc_address : Text) where
  unfoldable pub abort_morpho_deposit :
      DispatchMorphoDeposit → Text → Action MorphoDepositDispatchResult
  abort_morpho_deposit d reason = do
    send_aborted env d.execution_plan_id reason
    pure (record { execution_plan_id = d.execution_plan_id; status = aborted_because reason })

  unfoldable pub run_morpho_deposit :
      Option BaseClients → DispatchMorphoDeposit → Action MorphoDepositDispatchResult
  unfolding abort_morpho_deposit
  run_morpho_deposit none d = abort_morpho_deposit d (codes "chain_clients_unavailable")
  run_morpho_deposit (some clients) d = do
    result ← execute_morpho_deposit env clients usdc_address d
    pure (record { execution_plan_id = d.execution_plan_id; status = status_of result.status })

  unfoldable pub dispatch_morpho_deposit :
      Option BaseClients → DispatchMorphoDeposit → Action MorphoDepositDispatchResult
  unfolding run_morpho_deposit
  dispatch_morpho_deposit clients d =
      if is_supported_chain d.chain
      then if is_supported_morpho_deposit_chain d.chain
        then if is_supported_asset d.asset
          then run_morpho_deposit clients d
          else throw (
              adapter
                (unsupported_error (codes "Asset \"" ++ d.asset ++ codes "\" is not supported")))
        else throw (
            adapter (
              unsupported_error (
                codes "Chain \""
                ++ d.chain
                ++ codes
                    "\" is not supported for morpho_deposit dispatch (MVP is Base Sepolia only)")))
      else throw
          (adapter (unsupported_error (codes "Chain \"" ++ d.chain ++ codes "\" is not supported")))

  unfoldable pub handle_morpho_deposit_dispatch :
      Option BaseClients → Option DispatchMorphoDeposit → Action MorphoDepositDispatchResult
  unfolding dispatch_morpho_deposit
  handle_morpho_deposit_dispatch clients none =
      throw (adapter (validation_error (codes "Invalid morpho_deposit dispatch payload")))
  handle_morpho_deposit_dispatch clients (some d) =
      if morpho_deposit_schema env.zod d
      then dispatch_morpho_deposit clients d
      else throw (adapter (validation_error (codes "Invalid morpho_deposit dispatch payload")))
