-- ===== src/Revoke/Cryptographic.antt =====
-- chain_adapter/src/chains/base/revoke.ts: `executeCryptographicRevoke`. The ZeroDev SDK is `Sdk`;
-- the dynamic imports are part of the first call that uses them.
use cryptokorr.Common.{
  Text, codes, or_else, ◌&&◌, Option, none, some, List, [], ◌∷◌, ◌++◌, if◌then◌else◌,
}
use cryptokorr.Config.Chains.{base_chain}
use cryptokorr.Contracts.Permission.{PermissionBlock}
use cryptokorr.Contracts.Callback.{
  TxRef, DelegationState, revoked, revoke_failed, delegation_state_changed,
}
use cryptokorr.Errors.{execution_error}
use cryptokorr.Effect.{
  Reply, Thrown, adapter, cryptographic, Receipt, Env, History, Action, validator_built,
  signer_stubbed, deserialized, account_built, uninstalled, uninstall_awaited, pure, throw, ◌>>=◌,
  ◌>>◌, call_out, now_iso, message_of, try_catch,
}
use cryptokorr.Callbacks.{next_callback_id, send}
use cryptokorr.Execution.Pipeline.{TransferResult, success}
use cryptokorr.Execution.Swap.{truthy}
use cryptokorr.Revoke.Guards.{
  HexTools, session_signer_missing, permission_deserialization_failed, refuse, assert,
  assert_validation_id_consistent, assert_package_version_pinned, assert_signer_module_allowed,
  assert_policy_modules_allowed,
}

-- The fields of `AdapterConfig` that the revoke reads.
pub record OperatorConfig : Type 0 where
  pub operator_private_key : Option Text
  pub operator_address : Option Text

-- A deserialized plugin: the policies' addresses that `getPluginSerializationParams` gives, if the
-- plugin has that function and the parameters have that field.
pub record Plugin : Type 0 where
  pub serialization_params : Option (Option (List (Option Text)))

pub record Sdk : Type 0 where
  pub hex : HexTools
  pub build_validator : History → Text → Reply (Unit {0})
  pub stub_signer : History → Text → Reply (Option Text)
  pub deserialize : History → Text → Text → Reply (Option Plugin)
  pub build_account : History → Reply (Unit {0})
  pub uninstall : History → Text → Reply Text
  pub wait_for_uninstall : History → Text → Reply Receipt

abbrev pub revoke_bundler_label : Text
revoke_bundler_label = codes "base-v07-bundler"

abbrev pub uninstall_tx_ref : Text → Receipt → Text → TxRef
uninstall_tx_ref user_op_hash receipt status = record {
  chain = base_chain;
  hash = some receipt.transaction_hash;
  userop_hash = some user_op_hash;
  nonce = none;
  block_number = some receipt.block_number;
  status = some status;
  bundler = some revoke_bundler_label;
}

-- `(params.policies ?? []).map(...)`; the addresses are read by the parameter.
unfoldable pub extract_policy_contract_addresses : Option (List (Option Text)) → List (Option Text)
extract_policy_contract_addresses policies = or_else policies []

unfoldable pub require_policies : Option (Option (List (Option Text))) → Action (Unit {0})
require_policies none = refuse permission_deserialization_failed (
    codes
      "deserialized plugin missing getPluginSerializationParams; cannot enforce policy allowlist")
require_policies (some policies) =
    assert_policy_modules_allowed (extract_policy_contract_addresses policies)

unfoldable pub require_plugin : Option Plugin → Action Plugin
require_plugin none =
    refuse permission_deserialization_failed
      (codes "deserialized account does not carry a regular permission validator")
require_plugin (some plugin) = pure plugin

-- `err instanceof CryptographicRevokeError ? err.code : other`
unfoldable pub failure_reason : Text → Thrown → Text
failure_reason other (cryptographic code message) = code
failure_reason other e = other

module _ (sdk : Sdk) (block : PermissionBlock) where
  -- Guards 2 to 4, and the `catch` after them.
  unfoldable pub check_pins : Action (Unit {0})
  check_pins = do
    assert_validation_id_consistent sdk.hex block
    assert_package_version_pinned block
    assert (truthy block.session_signer_address) session_signer_missing (
        codes
          "permission block missing session_signer_address (keyless blobs require it for stub signer reconstruction)")

  -- The permission plugin of the blob, which uses pinned modules only.
  unfoldable pub load_plugin : Action (Unit {0})
  load_plugin = do
    signer_module ←
        call_out signer_stubbed (λ h. sdk.stub_signer h (or_else block.session_signer_address []))
    assert_signer_module_allowed signer_module
    found ←
        call_out (deserialized block.blob)
          (λ h. sdk.deserialize h block.blob (or_else block.session_signer_address []))
    plugin ← require_plugin found
    require_policies plugin.serialization_params

module _ (env : Env) (smart_account_id delegation_id : Text) where
  unfoldable pub report_state : DelegationState → Text → Option (List TxRef) → Action (Unit {0})
  report_state state reason refs = do
    id ← next_callback_id
    now ← now_iso env
    send env (delegation_state_changed id smart_account_id delegation_id state reason refs none now)

  -- The callback, then the `ExecutionError`.
  unfoldable pub fail_revoke : {A : Type 0} → Text → Text → Action A
  fail_revoke code message =
      report_state revoke_failed code none >> throw (adapter (execution_error code message))

  -- The second `catch`: an `ExecutionError` has been reported already.
  unfoldable pub on_revoke_error : {A : Type 0} → Thrown → Action A
  on_revoke_error (adapter (execution_error code message)) =
      throw (adapter (execution_error code message))
  on_revoke_error e =
      fail_revoke (failure_reason (codes "cryptographic_revoke_failed") e) (message_of e)

  unfoldable pub report_reverted_uninstall : Text → Receipt → Action (Text × Receipt)
  report_reverted_uninstall user_op_hash receipt = do
    report_state revoke_failed (or_else receipt.reason (codes "uninstall_validation_reverted"))
        (some (uninstall_tx_ref user_op_hash receipt (codes "reverted") ∷ []))
    throw (
        adapter (
          execution_error (codes "uninstall_validation_reverted") (
            codes "uninstallValidation reverted in UserOp "
            ++ user_op_hash
            ++ codes ": "
            ++ or_else receipt.reason (codes "uninstall_validation_reverted"))))

  unfoldable pub settle_uninstall : Text → Receipt → Action (Text × Receipt)
  settle_uninstall user_op_hash receipt =
      if receipt.success
      then pure (user_op_hash, receipt)
      else report_reverted_uninstall user_op_hash receipt

  module _ (sdk : Sdk) (block : PermissionBlock) where
    unfoldable pub check_pins_or_fail : Action (Unit {0})
    check_pins_or_fail = try_catch (check_pins sdk block) (λ e.
        fail_revoke (failure_reason (codes "permission_deserialization_failed") e) (message_of e))

    -- The body of the second `try`.
    unfoldable pub uninstall_permission : Text → Action (Text × Receipt)
    uninstall_permission operator_private_key = do
      call_out validator_built (λ h. sdk.build_validator h operator_private_key)
      load_plugin sdk block
      call_out account_built sdk.build_account
      user_op_hash ← call_out (uninstalled block.blob) (λ h. sdk.uninstall h block.blob)
      receipt ←
          call_out (uninstall_awaited user_op_hash) (λ h. sdk.wait_for_uninstall h user_op_hash)
      settle_uninstall user_op_hash receipt

    unfoldable pub revoke_permission : Text → Text → Action TransferResult
    revoke_permission reason operator_private_key = do
      check_pins_or_fail
      mined ← try_catch (uninstall_permission operator_private_key) on_revoke_error
      report_state revoked reason (some (uninstall_tx_ref mined.0 mined.1 (codes "success") ∷ []))
      pure (record {
        user_op_hash = mined.0;
        tx_hash = mined.1.transaction_hash;
        block_number = mined.1.block_number;
        status = success;
      })

    unfoldable pub execute_cryptographic_revoke : Text → OperatorConfig → Action TransferResult
    execute_cryptographic_revoke reason config =
        if truthy config.operator_private_key && truthy config.operator_address
        then revoke_permission reason (or_else config.operator_private_key [])
        else fail_revoke (codes "operator_key_missing") (
            codes
              "Cryptographic revoke requested (permission block present) but OPERATOR_PRIVATE_KEY / OPERATOR_ADDRESS is not configured; refusing to fall back to sentinel.")
