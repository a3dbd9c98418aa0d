-- ===== src/Execution/Protocol.antt =====
-- The contract of one execution with Phoenix and the bundler, as a state machine over the log: what
-- may happen in which phase, for the UserOperation and the callbacks of one `Plan`. The states are
-- those of chain_adapter/src/execution/types.ts; `pending` is split by whether
-- something was sent, and `broadcast` by whether the receipt was asked for.

pub mod Stages
pub mod Runs
use cryptokorr.Common.{Bool, true, false, Text, codes, ◌≡◌, List, [], ◌∷◌}
use cryptokorr.Contracts.Callback.{
  execution_broadcast, execution_confirmed, execution_reverted, execution_aborted,
}
use cryptokorr.Effect.{
  Reply, answered, failed, UserOp, Receipt, Env, BaseClients, Event, nonce_read, fees_read,
  gas_estimated, signed, submitted, awaited, posted, History,
}
use cryptokorr.UserOp.{local_hash, format_nonce_hex, user_op_hashes_equal}
use cryptokorr.Trace
use cryptokorr.Execution.Pipeline.{Plan, pending_tx_ref, mined_tx_ref}

pub data ExecutionState : Type 0 where
  pending broadcast confirmed reverted aborted : ExecutionState

-- A UserOperation with its local hash, and what the bundler answered.
pub data Phase : Type 0 where
  idle : Phase
  in_flight : UserOp × Text → Reply Text → Phase
  announced : UserOp × Text → Phase
  awaiting : UserOp × Text → Reply Receipt → Phase
  finished : ExecutionState → Phase

abbrev pub state_of : Phase → ExecutionState
state_of idle = pending
state_of (in_flight built reply) = pending
state_of (announced built) = broadcast
state_of (awaiting built reply) = broadcast
state_of (finished s) = s

-- The UserOperation that may be sent: from the adapter's account, with the plan's calldata, and
-- `h` is the hash of it before it was signed.
pub record IsPlanned (env : Env) (clients : BaseClients) (plan : Plan) (op : UserOp) (h : Text)
    : Type 0 where
  pub sender : op.sender ≡ clients.smart_account_address
  pub call_data : plan.call_data ≡ answered op.call_data
  pub hash : h ≡ local_hash env clients (record op { signature = codes "0x" })

module _ (env : Env) (clients : BaseClients) (plan : Plan) where
  -- `Legal hist p e q`: after the log `hist`, in phase `p`, the event `e` may happen, and leads to `q`.
  pub data Legal (hist : History) : Phase → Event → Phase → Type 0 where
    read_nonce : Legal hist idle nonce_read idle
    read_fees : Legal hist idle fees_read idle
    estimate : (op : UserOp) → Legal hist idle (gas_estimated op) idle
    sign : (h : Text) → Legal hist idle (signed h) idle
    send :
        {built : UserOp × Text}
        → IsPlanned env clients plan built.0 built.1
        → Legal hist idle
            (submitted built.0)
            (in_flight built (env.send_user_operation hist built.0))
    announce :
        (built : UserOp × Text) (returned id now : Text)
        → user_op_hashes_equal built.1 returned ≡ true
        → Legal hist
            (in_flight built (answered returned))
            (posted (
              execution_broadcast id plan.execution_plan_id
                (pending_tx_ref plan built.1 (format_nonce_hex built.0.nonce) ∷ [])
                now))
            (announced built)
    wait :
        (built : UserOp × Text)
        → Legal hist
            (announced built)
            (awaited built.1)
            (awaiting built (env.wait_for_receipt hist built.1))
    confirm :
        (built : UserOp × Text) (receipt : Receipt) (id now : Text)
        → receipt.success ≡ true
        → Legal hist
            (awaiting built (answered receipt))
            (posted (
              execution_confirmed id plan.execution_plan_id
                (mined_tx_ref plan built.1
                    (format_nonce_hex built.0.nonce)
                    receipt
                    (codes "success")
                  ∷ [])
                plan.balance_changes
                now))
            (finished confirmed)
    revert :
        (built : UserOp × Text) (receipt : Receipt) (id now : Text)
        → receipt.success ≡ false
        → Legal hist
            (awaiting built (answered receipt))
            (posted (
              execution_reverted id plan.execution_plan_id
                (mined_tx_ref plan built.1
                    (format_nonce_hex built.0.nonce)
                    receipt
                    (codes "reverted")
                  ∷ [])
                (plan.revert_reason receipt.reason)
                now))
            (finished reverted)
    abort_idle :
        (id reason now : Text)
        → Legal hist idle
            (posted (execution_aborted id plan.execution_plan_id reason now))
            (finished aborted)
    abort_rejected :
        (built : UserOp × Text) (message id reason now : Text)
        → Legal hist
            (in_flight built (failed message))
            (posted (execution_aborted id plan.execution_plan_id reason now))
            (finished aborted)
    abort_mismatched :
        (built : UserOp × Text) (returned id reason now : Text)
        → user_op_hashes_equal built.1 returned ≡ false
        → Legal hist
            (in_flight built (answered returned))
            (posted (execution_aborted id plan.execution_plan_id reason now))
            (finished aborted)
    abort_unconfirmed :
        (built : UserOp × Text) (message id reason now : Text)
        → Legal hist
            (awaiting built (failed message))
            (posted (execution_aborted id plan.execution_plan_id reason now))
            (finished aborted)

-- What was logged since `start` is a legal course of events that leads to the phase.
abbrev pub Course : Env → BaseClients → Plan → History → Phase → History → Type 0
Course env clients plan start q h = Trace.Course (Legal env clients plan) idle start q h

abbrev pub IsAborted : Phase → Type 0
IsAborted r = r ≡ finished aborted
