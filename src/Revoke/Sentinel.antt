-- ===== src/Revoke/Sentinel.antt =====
-- chain_adapter/src/chains/base/revoke.ts: `executeSentinelRevoke`, the revoke of a delegation that
-- has no permission block.
pub mod Protocol
pub mod Runs
use cryptokorr.Common.{
  Text, codes, or_else, to_string, Option, none, some, List, [], ◌∷◌, ◌++◌, if◌then◌else◌,
}
use cryptokorr.Config.Chains.{base_chain}
use cryptokorr.Contracts.Callback.{TxRef, revoked, revoke_failed}
use cryptokorr.Errors.{execution_error}
use cryptokorr.Effect.{
  adapter, UserOp, Receipt, Env, BaseClients, Action, submitted, awaited, pure, throw, ◌>>=◌, ◌>>◌,
  rethrow_as, call_out,
}
use cryptokorr.UserOp.{
  build_sentinel_revoke_call_data, build_and_sign_user_op, format_nonce_hex, user_op_hashes_equal,
}
use cryptokorr.Execution.Pipeline.{TransferResult, success, run_encoder}
use cryptokorr.Revoke.Cryptographic.{revoke_bundler_label, report_state}

abbrev pub unknown_tx_ref : Text → Text → TxRef
unknown_tx_ref user_op_hash nonce_hex = record {
  chain = base_chain;
  hash = none;
  userop_hash = some user_op_hash;
  nonce = some nonce_hex;
  block_number = none;
  status = some (codes "unknown");
  bundler = some revoke_bundler_label;
}

abbrev pub sentinel_tx_ref : Text → Text → Receipt → Text → TxRef
sentinel_tx_ref user_op_hash nonce_hex receipt status = record {
  chain = base_chain;
  hash = some receipt.transaction_hash;
  userop_hash = some user_op_hash;
  nonce = some nonce_hex;
  block_number = some receipt.block_number;
  status = some status;
  bundler = some revoke_bundler_label;
}

module _ (env : Env) (smart_account_id delegation_id : Text) where
  -- `revoke_failed` with a reason, then the `ExecutionError`.
  unfoldable pub fail_sentinel : {A : Type 0} → Text → Text → Text → Option (List TxRef) → Action A
  fail_sentinel code reason message refs = do
    report_state env smart_account_id delegation_id revoke_failed reason refs
    throw (adapter (execution_error code message))

  module _ (clients : BaseClients) where
    unfoldable pub sign_sentinel : Text → Action (UserOp × Text)
    sign_sentinel call_data = rethrow_as (build_and_sign_user_op env clients call_data) λ message.
        fail_sentinel (codes "userop_build_failed") (codes "userop_build_failed: " ++ message)
          (codes "Revoke UserOp build failed: " ++ message) none

    unfoldable pub submit_sentinel : UserOp → Text → Action (Unit {0})
    submit_sentinel op user_op_hash = do
      broadcast_hash ←
          rethrow_as (call_out (submitted op) (λ h. env.send_user_operation h op)) (λ message.
            fail_sentinel (codes "bundler_rejected") (codes "bundler_rejected: " ++ message)
              (codes "Bundler rejected revoke UserOp: " ++ message) none)
      if user_op_hashes_equal user_op_hash broadcast_hash
          then pure tt
          else fail_sentinel (codes "bundler_hash_mismatch")
              (codes "bundler_hash_mismatch: bundler returned "
                ++ broadcast_hash
                ++ codes ", locally computed "
                ++ user_op_hash)
              (codes "Bundler-returned user-op hash "
                ++ broadcast_hash
                ++ codes " does not match locally computed "
                ++ user_op_hash)
              none

    unfoldable pub await_sentinel : Text → Text → Action Receipt
    await_sentinel user_op_hash nonce_hex =
        rethrow_as (call_out (awaited user_op_hash) (λ h. env.wait_for_receipt h user_op_hash))
          λ message.
            fail_sentinel (codes "confirmation_failed") (codes "confirmation_failed: " ++ message)
              (codes "Revoke UserOp confirmation failed: " ++ message)
              (some (unknown_tx_ref user_op_hash nonce_hex ∷ []))

    unfoldable pub confirm_sentinel : Text → Text → Text → Receipt → Action TransferResult
    confirm_sentinel reason user_op_hash nonce_hex receipt = do
      report_state env smart_account_id delegation_id revoked reason
          (some (sentinel_tx_ref user_op_hash nonce_hex receipt (codes "success") ∷ []))
      pure (record {
        user_op_hash = user_op_hash;
        tx_hash = receipt.transaction_hash;
        block_number = receipt.block_number;
        status = success;
      })

    unfoldable pub settle_sentinel : Text → Text → Text → Receipt → Action TransferResult
    settle_sentinel reason user_op_hash nonce_hex receipt =
        if receipt.success
        then confirm_sentinel reason user_op_hash nonce_hex receipt
        else fail_sentinel (codes "sentinel_reverted")
            (or_else receipt.reason (codes "sentinel_reverted"))
            (codes "Revoke sentinel reverted at block " ++ to_string 10 receipt.block_number)
            (some (sentinel_tx_ref user_op_hash nonce_hex receipt (codes "reverted") ∷ []))

    -- The calldata is encoded before the first `try`.
    unfoldable pub execute_sentinel_revoke : Text → Action TransferResult
    execute_sentinel_revoke reason = do
      call_data ← run_encoder (build_sentinel_revoke_call_data env clients.smart_account_address)
      built ← sign_sentinel call_data
      let nonce_hex = format_nonce_hex built.0.nonce
      submit_sentinel built.0 built.1
      receipt ← await_sentinel built.1 nonce_hex
      settle_sentinel reason built.1 nonce_hex receipt
