-- ===== src/UserOp.antt =====
-- chain_adapter/src/chains/base/userop.ts: calldata of the smart account, and building, signing and
-- comparing UserOperations. The ABI encoders and the canonical hash are viem's.
use cryptokorr.Common.{ℕ, Text, codes, text_eq, to_lower, to_string, Bool, List, [], ◌∷◌, ◌++◌, map}
use cryptokorr.Effect.{
  Reply, answered, failed, UserOp, Fees, GasEstimate, Env, BaseClients, nonce_read, fees_read,
  gas_estimated, signed, Action, pure, ◌>>=◌, call_out,
}

-- One inner call of a batch.
pub record Call : Type 0 where
  pub target : Text
  pub value : ℕ
  pub payload : Text

-- A later encoder runs on what an earlier one returned, or throws what that threw.
unfoldable pub and_then : {A B : Type 0} → Reply A → (A → Reply B) → Reply B
and_then (answered a) f = f a
and_then (failed message) f = failed message

-- The throwaway signature of the gas estimate.
abbrev pub estimation_signature : Text
estimation_signature =
    codes
      "0xfffffffffffffffffffffffffffffff0000000000000000000000000000000007aa8b5bef47cfe4f89ac9a2bce0cfc5ea94e5d5d9ccba0edd0c6d5e34a85a7d61b"

unfoldable pub estimation_draft : BaseClients → Text → ℕ → Fees → UserOp
estimation_draft clients call_data nonce fees = record {
  sender = clients.smart_account_address;
  nonce = nonce;
  call_data = call_data;
  call_gas_limit = 0;
  verification_gas_limit = 0;
  pre_verification_gas = 0;
  max_fee_per_gas = fees.max_fee_per_gas;
  max_priority_fee_per_gas = fees.max_priority_fee_per_gas;
  signature = estimation_signature;
}

unfoldable pub unsigned_user_op : UserOp → GasEstimate → UserOp
unsigned_user_op draft gas = record draft {
  call_gas_limit = gas.call_gas_limit;
  verification_gas_limit = gas.verification_gas_limit;
  pre_verification_gas = gas.pre_verification_gas;
  signature = codes "0x";
}

module _ (env : Env) where
  unfoldable pub build_transfer_call_data : Text → Text → ℕ → Reply Text
  unfolding and_then
  build_transfer_call_data token to amount =
      and_then (env.encode_transfer to amount) (λ inner. env.encode_execute token 0 inner)

  unfoldable pub build_execute_batch_call_data : List Call → Reply Text
  build_execute_batch_call_data calls =
      env.encode_execute_batch (map (λ c. c.target) calls) (map (λ c. c.value) calls)
        (map (λ c. c.payload) calls)

  unfoldable pub build_swap_batch_call_data : Text → Text → Text → ℕ → Text → ℕ → Reply Text
  unfolding and_then build_execute_batch_call_data
  build_swap_batch_call_data input_token spender swap_target swap_value swap_calldata
        approve_amount =
      and_then (env.encode_approve spender approve_amount) (λ approve.
        build_execute_batch_call_data (
          record { target = input_token; value = 0; payload = approve }
          ∷ record { target = swap_target; value = swap_value; payload = swap_calldata }
          ∷ []))

  unfoldable pub build_sentinel_revoke_call_data : Text → Reply Text
  build_sentinel_revoke_call_data account = env.encode_execute account 0 (codes "0x")

  -- `getUserOperationHash`, at the adapter's chain and entry point.
  unfoldable pub local_hash : BaseClients → UserOp → Text
  local_hash clients op = env.hash_user_op clients.chain_id clients.entry_point_address op

  -- The nonce key is 0: no caller passes another one.
  unfoldable pub build_and_sign_user_op : BaseClients → Text → Action (UserOp × Text)
  unfolding local_hash estimation_draft unsigned_user_op
  build_and_sign_user_op clients call_data = do
    nonce ←
        call_out nonce_read
          (λ h. env.get_nonce h clients.entry_point_address clients.smart_account_address 0)
    fees ← call_out fees_read env.estimate_fees
    let draft = estimation_draft clients call_data nonce fees
    gas ← call_out (gas_estimated draft) (λ h. env.estimate_gas h draft)
    let unsigned = unsigned_user_op draft gas
    let hash = local_hash clients unsigned
    signature ← call_out (signed hash) (λ h. env.sign_message h hash)
    pure (record unsigned { signature = signature }, hash)

unfoldable pub format_nonce_hex : ℕ → Text
unfolding to_string
format_nonce_hex nonce = codes "0x" ++ to_string 16 nonce

unfoldable pub user_op_hashes_equal : Text → Text → Bool
unfolding to_lower text_eq
user_op_hashes_equal local bundler_returned = text_eq (to_lower local) (to_lower bundler_returned)
