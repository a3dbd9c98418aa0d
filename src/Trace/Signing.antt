-- ===== src/Trace/Signing.antt =====
-- `build_and_sign_user_op`, in the program logic: in a phase in which the calls that it makes are
-- allowed, it stays there, and gives a UserOperation of the adapter's account for that calldata.
use cryptokorr.Common.{Text, codes, ◌≡◌, refl}
use cryptokorr.Effect.{
  UserOp, Env, BaseClients, Event, nonce_read, fees_read, gas_estimated, signed, History,
}
use cryptokorr.UserOp.{build_and_sign_user_op, local_hash, estimation_draft, unsigned_user_op}
use cryptokorr.Trace.{Moved, Follows}
use cryptokorr.Trace.Rules.{pure-Follows, call_then-Follows}

-- The UserOperation `op` is for `call_data`, and `h` is its hash before it was signed.
pub record IsSigned (env : Env) (clients : BaseClients) (call_data : Text) (op : UserOp) (h : Text)
    : Type 0 where
  pub sender : op.sender ≡ clients.smart_account_address
  pub payload : op.call_data ≡ call_data
  pub hash : h ≡ local_hash env clients (record op { signature = codes "0x" })

module _ {P : Type 0} (L : History → P → Event → P → Type 0) (env : Env) (clients : BaseClients)
    (idle : P) where
  pub build_and_sign_user_op-Follows :
      (call_data : Text)
      → ((hist : History) → L hist idle nonce_read idle)
      → ((hist : History) → L hist idle fees_read idle)
      → ((op : UserOp) (hist : History) → L hist idle (gas_estimated op) idle)
      → ((h : Text) (hist : History) → L hist idle (signed h) idle)
      → Follows L idle
          (build_and_sign_user_op env clients call_data)
          (Moved (λ built. IsSigned env clients call_data built.0 built.1) idle)
  unfolding build_and_sign_user_op local_hash estimation_draft unsigned_user_op
  build_and_sign_user_op-Follows call_data read_nonce read_fees estimate sign =
      let Got : UserOp × Text → Type 0 = λ built. IsSigned env clients call_data built.0 built.1 in
      call_then-Follows L Got idle _ _ _ read_nonce (λ nonce.
        call_then-Follows L Got idle _ _ _ read_fees (λ fees.
          call_then-Follows L Got idle _ _ _ (estimate _) (λ gas.
            call_then-Follows L Got idle _ _ _ (sign _) (λ signature.
              pure-Follows L (Moved Got idle) idle _
                (record { sender = refl; payload = refl; hash = refl }, refl)))))
