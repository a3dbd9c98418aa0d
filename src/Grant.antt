-- ===== src/Grant.antt =====
-- chain_adapter/src/chains/base/grant.ts: `executeGrant`. viem and the ZeroDev SDK are `GrantSdk`; the
-- dynamic imports and `createKernelAccountClient` are part of the calls that use them, and the scope
-- of the dispatch, which is only logged, is left out.
pub mod Redaction
pub mod Protocol
pub mod FailClosed
pub mod Revocable
use cryptokorr.Common.{
  ℕ, ◌==◌, Text, codes, to_string, or_else, ◌&&◌, none, some, [], ◌∷◌, ◌++◌, if◌then◌else◌,
}
use cryptokorr.Contracts.Permission.{PermissionBlock}
use cryptokorr.Contracts.Callback.{DelegationState, granted, grant_failed, delegation_state_changed}
use cryptokorr.Errors.{execution_error}
use cryptokorr.Effect.{
  Reply, Thrown, adapter, GasEstimate, Receipt, Env, History, Action, validator_built,
  session_signer_built, permission_built, account_built, install_submitted, install_awaited,
  permission_serialized, pure, throw, ◌>>=◌, ◌>>◌, call_out, now_iso, now_ms, message_of, try_catch,
}
use cryptokorr.Callbacks.{next_callback_id, send}
use cryptokorr.Execution.Pipeline.{run_encoder}
use cryptokorr.Execution.Swap.{truthy}
use cryptokorr.Revoke.Guards.{HexTools, validation_id_of, pinned_package_version}
use cryptokorr.Revoke.Cryptographic.{OperatorConfig}
use cryptokorr.Grant.Redaction.{redact_grant_error}

-- `address_of_key` is the address of `privateKeyToAccount`; a permission plugin is its `getIdentifier`.
pub record GrantSdk : Type 0 where
  pub hex : HexTools
  pub address_of_key : Text → Reply Text
  pub encode_call : Text → ℕ → Text → Reply Text
  pub build_validator : History → Text → Reply (Unit {0})
  pub build_session_signer : History → Text → Reply (Unit {0})
  pub build_permission : History → Reply Text
  pub build_account : History → Reply (Unit {0})
  pub install : History → Text → GasEstimate → Reply Text
  pub wait_for_install : History → Text → Reply Receipt
  pub serialize : History → Reply Text

-- The fields of `AdapterConfig` that the grant reads.
pub record GrantConfig : Type 0 where
  pub operator : OperatorConfig
  pub base_chain_id : ℕ
  pub delegation_signer_key : Text

pub data GrantFailureCode : Type 0 where
  operator_key_missing permission_install_failed : GrantFailureCode
  permission_serialization_failed chain_id_mismatch : GrantFailureCode

unfoldable pub grant_failure_text : GrantFailureCode → Text
grant_failure_text operator_key_missing = codes "operator_key_missing"
grant_failure_text permission_install_failed = codes "permission_install_failed"
grant_failure_text permission_serialization_failed = codes "permission_serialization_failed"
grant_failure_text chain_id_mismatch = codes "chain_id_mismatch"

pub record GrantResult : Type 0 where
  pub permission_id : Text
  pub validation_id : Text
  pub session_signer_address : Text
  pub install_tx_hash : Text
  pub install_block_number : ℕ
  pub blob : Text

abbrev pub permission_install_gas_limits : GasEstimate
permission_install_gas_limits = record {
  call_gas_limit = 500000;
  verification_gas_limit = 1000000;
  pre_verification_gas = 100000;
}

abbrev pub kernel_version_string : Text
kernel_version_string = codes "0.3.1"

-- viem's `zeroAddress`.
abbrev pub zero_address : Text
zero_address = codes "0x0000000000000000000000000000000000000000"

abbrev pub grant_result : HexTools → Text → Text → Receipt → Text → GrantResult
grant_result hex permission_id session_address receipt blob = record {
  permission_id = permission_id;
  validation_id = validation_id_of hex permission_id;
  session_signer_address = session_address;
  install_tx_hash = receipt.transaction_hash;
  install_block_number = receipt.block_number;
  blob = blob;
}

-- The permission block of the granted callback.
abbrev pub granted_block : GrantResult → PermissionBlock
granted_block result = record {
  blob = result.blob;
  permission_id = result.permission_id;
  validation_id = result.validation_id;
  kernel_version = kernel_version_string;
  package_version = pinned_package_version;
  session_signer_address = some result.session_signer_address;
  installed_at_block = some result.install_block_number;
  install_tx_hash = some result.install_tx_hash;
}

module _ (env : Env) (smart_account_id : Text) where
  unfoldable pub report_grant_failed : Text → Action (Unit {0})
  unfolding to_string
  report_grant_failed reason = do
    id ← next_callback_id
    ms ← now_ms env
    now ← now_iso env
    send env (
        delegation_state_changed id smart_account_id (codes "grant_failed_" ++ to_string 10 ms)
          grant_failed reason none none now)

  -- The callback, then the `ExecutionError`.
  unfoldable pub emit_grant_failure : {A : Type 0} → GrantFailureCode → Text → Action A
  unfolding grant_failure_text
  emit_grant_failure code message =
      report_grant_failed (grant_failure_text code)
      >> throw (adapter (execution_error (grant_failure_text code) message))

  -- The two `catch` clauses that let an `ExecutionError` through.
  unfoldable pub on_grant_error : {A : Type 0} → Text → Thrown → Action A
  on_grant_error prefix (adapter (execution_error code message)) =
      throw (adapter (execution_error code message))
  on_grant_error prefix e =
      emit_grant_failure permission_install_failed (prefix ++ redact_grant_error (message_of e))

  unfoldable pub report_granted : GrantResult → Action (Unit {0})
  report_granted result = do
    id ← next_callback_id
    now ← now_iso env
    send env (
        delegation_state_changed id smart_account_id result.permission_id granted
          (codes "wallet_connect_install") none (some (granted_block result)) now)

  unfoldable pub settle_install : Receipt → Action Receipt
  settle_install receipt =
      if receipt.success
      then pure receipt
      else emit_grant_failure permission_install_failed (
          codes "Install UserOp reverted: "
          ++ or_else receipt.reason (codes "permission_install_reverted"))

  module _ (sdk : GrantSdk) (config : GrantConfig) where
    -- The body of the inner `try`: an inert call, whose signature carries the enable data.
    unfoldable pub install_permission : Action Receipt
    install_permission = do
      call_data ← run_encoder (sdk.encode_call zero_address 0 (codes "0x"))
      user_op_hash ←
          call_out (install_submitted call_data permission_install_gas_limits)
            (λ h. sdk.install h call_data permission_install_gas_limits)
      receipt ← call_out (install_awaited user_op_hash) (λ h. sdk.wait_for_install h user_op_hash)
      settle_install receipt

    unfoldable pub serialize_permission : Action Text
    serialize_permission = try_catch (call_out permission_serialized sdk.serialize) (λ e.
        emit_grant_failure permission_serialization_failed
          (codes "serializePermissionAccount failed: " ++ redact_grant_error (message_of e)))

    -- The body of the outer `try`, from the kernel account on and as a whole.
    unfoldable pub install_and_serialize : Text → Text → Action GrantResult
    install_and_serialize permission_id session_address = do
      call_out account_built sdk.build_account
      receipt ← try_catch install_permission (on_grant_error (codes "Install UserOp failed: "))
      blob ← serialize_permission
      pure (grant_result sdk.hex permission_id session_address receipt blob)

    unfoldable pub build_and_install : Text → Action GrantResult
    build_and_install operator_private_key = do
      run_encoder (sdk.address_of_key operator_private_key)
      call_out validator_built (λ h. sdk.build_validator h operator_private_key)
      session_address ← run_encoder (sdk.address_of_key config.delegation_signer_key)
      call_out session_signer_built (λ h. sdk.build_session_signer h config.delegation_signer_key)
      permission_id ← call_out permission_built sdk.build_permission
      install_and_serialize permission_id session_address

    unfoldable pub install_and_report : Action GrantResult
    install_and_report = do
      result ←
          try_catch (build_and_install (or_else config.operator.operator_private_key []))
            (on_grant_error (codes "Grant flow failed: "))
      report_granted result
      pure result

    unfoldable pub execute_grant : ℕ → Action GrantResult
    unfolding to_string
    execute_grant chain_id =
        if truthy config.operator.operator_private_key && truthy config.operator.operator_address
        then if chain_id == config.base_chain_id
          then install_and_report
          else emit_grant_failure chain_id_mismatch (
              codes "Dispatch chain_id="
              ++ to_string 10 chain_id
              ++ codes " does not match adapter baseChainId="
              ++ to_string 10 config.base_chain_id)
        else emit_grant_failure operator_key_missing (
            codes
              "Cryptographic grant requested but OPERATOR_PRIVATE_KEY / OPERATOR_ADDRESS is not configured.")
