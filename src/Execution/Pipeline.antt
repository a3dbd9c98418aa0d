-- ===== src/Execution/Pipeline.antt =====
-- The part that chains/base/transfer.ts, swap.ts and morpho_deposit.ts have in common, statement for
-- statement: build and sign, submit, compare hashes, announce, wait, report. `Plan` holds what
-- differs between the three: the calldata, the texts and the balance changes.
use cryptokorr.Common.{ℕ, Text, codes, Option, none, some, List, [], ◌∷◌, ◌++◌, if◌then◌else◌}
use cryptokorr.Contracts.Callback.{
  TxRef, BalanceItem, execution_broadcast, execution_confirmed, execution_reverted,
  execution_aborted,
}
use cryptokorr.Errors.{execution_error}
use cryptokorr.Effect.{
  Reply, answered, failed, UserOp, Receipt, Env, BaseClients, adapter, unexpected, submitted,
  awaited, Action, pure, throw, ◌>>=◌, ◌>>◌, rethrow_as, call_out, now_iso,
}
use cryptokorr.Callbacks.{next_callback_id, send}
use cryptokorr.UserOp.{build_and_sign_user_op, format_nonce_hex, user_op_hashes_equal}

pub record Plan : Type 0 where
  pub execution_plan_id : Text
  pub chain : Text
  pub bundler : Text
  pub call_data : Reply Text
  pub build_failed_text : Text
  pub rejected_text : Text
  pub confirmation_failed_text : Text
  pub balance_changes : List BalanceItem
  pub revert_reason : Option Text → Text

pub data TransferStatus : Type 0 where
  success reverted : TransferStatus

-- `TransferResult`, `SwapExecutionResult` and `MorphoDepositExecutionResult`.
pub record TransferResult : Type 0 where
  pub user_op_hash : Text
  pub tx_hash : Text
  pub block_number : ℕ
  pub status : TransferStatus

-- An encoder's result, where the code calls it.
unfoldable pub run_encoder : {A : Type 0} → Reply A → Action A
run_encoder (answered a) = pure a
run_encoder (failed message) = throw (unexpected message)

abbrev pub pending_tx_ref : Plan → Text → Text → TxRef
pending_tx_ref plan user_op_hash nonce_hex = record {
  chain = plan.chain;
  hash = none;
  userop_hash = some user_op_hash;
  nonce = some nonce_hex;
  block_number = none;
  status = none;
  bundler = some plan.bundler;
}

abbrev pub mined_tx_ref : Plan → Text → Text → Receipt → Text → TxRef
mined_tx_ref plan user_op_hash nonce_hex receipt status = record {
  chain = plan.chain;
  hash = some receipt.transaction_hash;
  userop_hash = some user_op_hash;
  nonce = some nonce_hex;
  block_number = some receipt.block_number;
  status = some status;
  bundler = some plan.bundler;
}

module _ (env : Env) where
  -- The `execution.aborted` callback of every failure.
  unfoldable pub send_aborted : Text → Text → Action (Unit {0})
  send_aborted execution_plan_id reason = do
    id ← next_callback_id
    now ← now_iso env
    send env (execution_aborted id execution_plan_id reason now)

  -- The callback, then the `ExecutionError` of the same code.
  unfoldable pub abort : {A : Type 0} → Text → Text → Text → Text → Action A
  abort execution_plan_id code reason message = do
    send_aborted execution_plan_id reason
    throw (adapter (execution_error code message))

  module _ (clients : BaseClients) (plan : Plan) where
    unfoldable pub build_and_sign : Action (UserOp × Text)
    build_and_sign =
        rethrow_as (run_encoder plan.call_data >>= build_and_sign_user_op env clients) λ message.
          abort plan.execution_plan_id (codes "userop_build_failed")
            (codes "userop_build_failed: " ++ message) (plan.build_failed_text ++ message)

    -- `sendUserOperation`, whose hash must be the local one.
    unfoldable pub submit : UserOp → Text → Action (Unit {0})
    submit op user_op_hash = do
      broadcast_hash ←
          rethrow_as (call_out (submitted op) (λ h. env.send_user_operation h op)) (λ message.
            abort plan.execution_plan_id (codes "bundler_rejected")
              (codes "bundler_rejected: " ++ message) (plan.rejected_text ++ message))
      if user_op_hashes_equal user_op_hash broadcast_hash
          then pure tt
          else abort plan.execution_plan_id (codes "bundler_hash_mismatch")
              (codes "bundler_hash_mismatch: bundler returned "
                ++ broadcast_hash
                ++ codes ", locally computed "
                ++ user_op_hash)
              (codes "Bundler-returned user-op hash "
                ++ broadcast_hash
                ++ codes " does not match locally computed "
                ++ user_op_hash)

    unfoldable pub announce : Text → Text → Action (Unit {0})
    announce user_op_hash nonce_hex = do
      id ← next_callback_id
      now ← now_iso env
      send env (
          execution_broadcast id plan.execution_plan_id
            (pending_tx_ref plan user_op_hash nonce_hex ∷ []) now)

    unfoldable pub wait_for_receipt : Text → Action Receipt
    wait_for_receipt user_op_hash =
        rethrow_as (call_out (awaited user_op_hash) (λ h. env.wait_for_receipt h user_op_hash))
          λ message.
            abort plan.execution_plan_id (codes "confirmation_failed")
              (codes "confirmation_failed: " ++ message) (plan.confirmation_failed_text ++ message)

    abbrev result_of : Text → Receipt → TransferStatus → TransferResult
    result_of user_op_hash receipt status = record {
      user_op_hash = user_op_hash;
      tx_hash = receipt.transaction_hash;
      block_number = receipt.block_number;
      status = status;
    }

    unfoldable pub report_confirmed : Text → Text → Receipt → Action TransferResult
    report_confirmed user_op_hash nonce_hex receipt = do
      id ← next_callback_id
      now ← now_iso env
      send env (
          execution_confirmed id plan.execution_plan_id
            (mined_tx_ref plan user_op_hash nonce_hex receipt (codes "success") ∷ [])
            plan.balance_changes now)
      pure (result_of user_op_hash receipt success)

    unfoldable pub report_reverted : Text → Text → Receipt → Action TransferResult
    report_reverted user_op_hash nonce_hex receipt = do
      id ← next_callback_id
      now ← now_iso env
      send env (
          execution_reverted id plan.execution_plan_id
            (mined_tx_ref plan user_op_hash nonce_hex receipt (codes "reverted") ∷ [])
            (plan.revert_reason receipt.reason) now)
      pure (result_of user_op_hash receipt reverted)

    unfoldable pub run_plan : Action TransferResult
    run_plan = do
      built ← build_and_sign
      let user_op_hash = built.1
      let nonce_hex = format_nonce_hex built.0.nonce
      submit built.0 user_op_hash
      announce user_op_hash nonce_hex
      receipt ← wait_for_receipt user_op_hash
      if receipt.success
          then report_confirmed user_op_hash nonce_hex receipt
          else report_reverted user_op_hash nonce_hex receipt
