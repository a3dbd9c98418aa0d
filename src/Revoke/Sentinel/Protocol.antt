-- ===== src/Revoke/Sentinel/Protocol.antt =====
-- The contract of a sentinel revoke with Phoenix and the bundler, as a state machine over the log.
use cryptokorr.Common.{Text, codes, ◌≡◌, true, false, Option, none, some, List, [], ◌∷◌}
use cryptokorr.Contracts.Callback.{
  TxRef, DelegationState, revoked, revoke_failed, delegation_state_changed,
}
use cryptokorr.Effect.{
  Reply, answered, failed, UserOp, Receipt, Env, BaseClients, Event, nonce_read, fees_read,
  gas_estimated, signed, submitted, awaited, posted, History,
}
use cryptokorr.UserOp.{build_sentinel_revoke_call_data, format_nonce_hex, user_op_hashes_equal}
use cryptokorr.Trace.Signing.{IsSigned}
use cryptokorr.Revoke.Sentinel.{sentinel_tx_ref}

-- A UserOperation with its local hash, and what the bundler answered.
pub data SentinelPhase : Type 0 where
  idle : SentinelPhase
  in_flight : UserOp × Text → Reply Text → SentinelPhase
  awaiting : UserOp × Text → Reply Receipt → SentinelPhase
  finished : DelegationState → SentinelPhase

-- The account's empty call of itself, signed.
pub record IsSentinel (env : Env) (clients : BaseClients) (built : UserOp × Text) : Type 0 where
  pub call_data : Text
  pub encoded :
      build_sentinel_revoke_call_data env clients.smart_account_address ≡ answered call_data
  pub is_signed : IsSigned env clients call_data built.0 built.1

-- The phases in which a failure may be reported: all but those in which the revoke succeeded or may
-- still succeed.
pub data CanFail : SentinelPhase → Type 0 where
  at_idle : CanFail idle
  at_rejected :
      (built : UserOp × Text) (message : Text) → CanFail (in_flight built (failed message))
  at_mismatched :
      (built : UserOp × Text) (returned : Text)
      → user_op_hashes_equal built.1 returned ≡ false
      → CanFail (in_flight built (answered returned))
  at_unconfirmed :
      (built : UserOp × Text) (message : Text) → CanFail (awaiting built (failed message))
  at_reverted :
      (built : UserOp × Text) (receipt : Receipt)
      → receipt.success ≡ false
      → CanFail (awaiting built (answered receipt))

module _ (env : Env) (clients : BaseClients) (smart_account_id delegation_id reason : Text) where
  pub data Legal (hist : History) : SentinelPhase → Event → SentinelPhase → Type 0 where
    read_nonce : Legal hist idle nonce_read idle
    read_fees : Legal hist idle fees_read idle
    estimate : (op : UserOp) → Legal hist idle (gas_estimated op) idle
    sign : (h : Text) → Legal hist idle (signed h) idle
    send :
        (built : UserOp × Text)
        → IsSentinel env clients built
        → Legal hist idle
            (submitted built.0)
            (in_flight built (env.send_user_operation hist built.0))
    wait :
        (built : UserOp × Text) (returned : Text)
        → user_op_hashes_equal built.1 returned ≡ true
        → Legal hist
            (in_flight built (answered returned))
            (awaited built.1)
            (awaiting built (env.wait_for_receipt hist built.1))
    confirm :
        (built : UserOp × Text) (receipt : Receipt) (id now : Text)
        → receipt.success ≡ true
        → Legal hist
            (awaiting built (answered receipt))
            (posted (
              delegation_state_changed id smart_account_id delegation_id revoked reason
                (some (
                  sentinel_tx_ref built.1 (format_nonce_hex built.0.nonce) receipt (codes "success")
                  ∷ []))
                none
                now))
            (finished revoked)
    fail :
        {p : SentinelPhase} (id text now : Text) (refs : Option (List TxRef))
        → CanFail p
        → Legal hist p
            (posted (
              delegation_state_changed id smart_account_id delegation_id revoke_failed text refs
                none now))
            (finished revoke_failed)

abbrev pub IsFailed : SentinelPhase → Type 0
IsFailed r = r ≡ finished revoke_failed
