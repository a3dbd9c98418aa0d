-- ===== src/Revoke/Sentinel/Runs.antt =====
-- What the sentinel revoke does, whatever the bundler, the chain and Phoenix answer.
use cryptokorr.Common.{Text, ◌≡◌, ◌⊎◌, true}
use cryptokorr.Contracts.Callback.{revoked}
use cryptokorr.Effect.{
  Reply, answered, failed, unexpected, thrown, UserOp, Env, BaseClients, Event, World, History,
  Action,
}
use cryptokorr.UserOp.{user_op_hashes_equal}
use cryptokorr.Trace.{Course, Verdict}
use cryptokorr.Execution.Pipeline.{TransferResult}
use cryptokorr.Revoke.Sentinel.Protocol.{
  SentinelPhase, idle, in_flight, finished, IsSentinel, Legal, IsFailed,
}

module _ (env : Env) (clients : BaseClients) (smart_account_id delegation_id reason : Text) where
  abbrev pub This : History → SentinelPhase → Event → SentinelPhase → Type 0
  This = Legal env clients smart_account_id delegation_id reason

  abbrev Signed : UserOp × Text → SentinelPhase → Type 0
  Signed built r = IsSentinel env clients built × (r ≡ idle)

  -- The bundler has the UserOperation, and returned its hash.
  abbrev Accepted : UserOp × Text → SentinelPhase → Type 0
  Accepted built r =
      (returned : Text) × (user_op_hashes_equal built.1 returned ≡ true)
      × (r ≡ in_flight built (answered returned))

  abbrev pub Done : TransferResult → SentinelPhase → Type 0
  Done result r = r ≡ finished revoked

  -- Either the calldata cannot be encoded, which ends the revoke before it has done anything, or it
  -- is encoded, and what follows is a course of the protocol with a verdict.
  abbrev pub RevokeCourse : Reply Text → Action TransferResult → World → Type 0
  RevokeCourse encoded m w =
      ((message : Text) × (encoded ≡ failed message) × (m w ≡ (thrown (unexpected message), w)))
      ⊎ ((call_data : Text) × (encoded ≡ answered call_data)
          × ((q : SentinelPhase) × Course This idle w.history q (m w).1.history
              × Verdict Done IsFailed (m w).0 q))
