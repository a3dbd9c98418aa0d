-- ===== src/Execution/Protocol/Stages.antt =====
-- The stages of `run_plan`, each against the protocol.
use cryptokorr.Common.{Text, Bool, true, false, ◌≡◌, refl, if◌then◌else◌}
use cryptokorr.Contracts.Callback.{CallbackPayload, execution_aborted}
use cryptokorr.Effect.{
  Event, Thrown, Outcome, ok, thrown, adapter, cryptographic, message_of, rethrow_as, call_out,
  Reply, answered, failed, unexpected, UserOp, Env, BaseClients, submitted, awaited, posted, pure,
  ◌>>=◌, now_iso, History,
}
use cryptokorr.Callbacks.{next_callback_id}
use cryptokorr.Callbacks
use cryptokorr.UserOp.{build_and_sign_user_op, user_op_hashes_equal, format_nonce_hex}
use cryptokorr.Execution.Pipeline.{
  Plan, run_encoder, send_aborted, abort, build_and_sign, submit, announce, wait_for_receipt,
}
use cryptokorr.Execution.Protocol.{
  IsAborted, Legal, pending, broadcast, confirmed, aborted, Phase, idle, in_flight, announced,
  awaiting, finished, IsPlanned, read_nonce, read_fees, estimate, sign, wait, abort_idle,
  abort_rejected, abort_mismatched, abort_unconfirmed, confirm, revert,
}
use cryptokorr.Execution.Protocol
use cryptokorr.Trace.{
  Delivered, Delivered-Sent, Follows, Moved, Asked, Stranded-phase, Fault-weaken, Verdict, Sent,
}
use cryptokorr.Trace.Rules.{
  weaken-Follows, pure-Follows, throw-Follows, bind-Follows, seq-Follows, rethrow-Follows,
  ask-Follows,
}
use cryptokorr.Trace.Signing.{IsSigned, build_and_sign_user_op-Follows}
use cryptokorr.Trace.Delivery.{callback-Delivered}

module _ (env : Env) (clients : BaseClients) (plan : Plan) where
  -- A callback whose id and time are made on the spot.
  callback-Follows :
      (p q : Phase) (payload : Text → Text → CallbackPayload)
      → ((id now : Text) (hist : History)
          → Legal env clients plan hist p (posted (payload id now)) q)
      → Follows
          (Legal env clients plan)
          p
          (next_callback_id >>= λ id. now_iso env >>= λ now. Callbacks.send env (payload id now))
          (Sent q)
  callback-Follows p q payload l =
      weaken-Follows (Legal env clients plan) (Delivered p q) (Sent q) p
        (next_callback_id >>= λ id. now_iso env >>= λ now. Callbacks.send env (payload id now))
        (Delivered-Sent p q) (callback-Delivered (Legal env clients plan) env p q payload l)

  abort-Follows :
      {A : Type 0} (Got : A → Phase → Type 0) (p : Phase) (code reason message : Text)
      → ((id now : Text) (hist : History)
          → Legal env clients plan hist p
              (posted (execution_aborted id plan.execution_plan_id reason now))
              (finished aborted))
      → Follows
          (Legal env clients plan)
          p
          (abort env plan.execution_plan_id code reason message)
          (Verdict Got IsAborted)
  unfolding abort send_aborted
  abort-Follows Got p code reason message l =
      seq-Follows (Legal env clients plan) (Sent (finished aborted)) (Verdict Got IsAborted) p _ _
        (callback-Follows p (finished aborted)
          (λ id now. execution_aborted id plan.execution_plan_id reason now) l)
        (λ u r e. throw-Follows (Legal env clients plan) (Verdict Got IsAborted) r _ e)
        (Fault-weaken IsAborted)

  failed-Follows :
      {A : Type 0} (to : Reply A → Phase) (code : Text) (reason message : Text → Text)
      → ((m id text now : Text) (hist : History)
          → Legal env clients plan hist
              (to (failed m))
              (posted (execution_aborted id plan.execution_plan_id text now))
              (finished aborted))
      → (x : Thrown) (q : Phase) → Asked to (thrown x) q
      → Follows
          (Legal env clients plan)
          q
          (abort env plan.execution_plan_id code (reason (message_of x)) (message (message_of x)))
          (Verdict (λ a r. r ≡ to (answered a)) IsAborted)
  unfolding message_of
  failed-Follows to code reason message stop (adapter e) q h = absurd h
  failed-Follows to code reason message stop (cryptographic c m) q h = absurd h
  failed-Follows to code reason message stop (unexpected m) q h = rw h (
      abort-Follows (λ a r. r ≡ to (answered a)) (to (failed m)) code _ _
        (λ id now. stop m id _ now))

  -- A call of the outside, with an abort if it fails.
  guarded_call-Follows :
      {A : Type 0} (p : Phase) (to : Reply A → Phase) (e : Event) (ask : History → Reply A)
      (code : Text) (reason message : Text → Text)
      → ((hist : History) → Legal env clients plan hist p e (to (ask hist)))
      → ((m id text now : Text) (hist : History)
          → Legal env clients plan hist
              (to (failed m))
              (posted (execution_aborted id plan.execution_plan_id text now))
              (finished aborted))
      → Follows
          (Legal env clients plan)
          p
          (rethrow_as
            (call_out e ask)
            (λ m. abort env plan.execution_plan_id code (reason m) (message m)))
          (Verdict (λ a r. r ≡ to (answered a)) IsAborted)
  guarded_call-Follows {A} p to e ask code reason message l stop =
      rethrow-Follows (Legal env clients plan) (Asked to)
        (Verdict (λ a r. r ≡ to (answered a)) IsAborted) p _ _
        (ask-Follows (Legal env clients plan) p to e ask l) (λ a r h. h)
        (failed-Follows to code reason message stop)

  abbrev Planned : UserOp × Text → Type 0
  Planned built = IsPlanned env clients plan built.0 built.1

  Signed-Planned :
      (call_data : Text)
      → plan.call_data ≡ answered call_data
      → (o : Outcome (UserOp × Text)) (q : Phase)
      → Moved (λ built. IsSigned env clients call_data built.0 built.1) idle o q
      → Moved Planned idle o q
  Signed-Planned call_data e (ok built) q h =
      (record { sender = h.0.sender; call_data = rw h.0.payload e; hash = h.0.hash }, h.1)
  Signed-Planned call_data e (thrown x) q h = h

  -- The UserOperation and its hash, still before anything is sent.
  sign-Follows :
      (call_data : Text)
      → plan.call_data ≡ answered call_data
      → Follows
          (Legal env clients plan)
          idle
          (build_and_sign_user_op env clients call_data)
          (Moved Planned idle)
  sign-Follows call_data e =
      weaken-Follows (Legal env clients plan)
        (Moved (λ built. IsSigned env clients call_data built.0 built.1) idle) (Moved Planned idle)
        idle (build_and_sign_user_op env clients call_data) (Signed-Planned call_data e)
        (build_and_sign_user_op-Follows (Legal env clients plan) env clients idle call_data
          (λ hist. read_nonce) (λ hist. read_fees) (λ op hist. estimate op) (λ h hist. sign h))

  encode-Follows :
      (r : Reply Text)
      → plan.call_data ≡ r
      → Follows
          (Legal env clients plan)
          idle
          (run_encoder r >>= build_and_sign_user_op env clients)
          (Moved Planned idle)
  unfolding run_encoder
  encode-Follows (answered call_data) e =
      bind-Follows (Legal env clients plan) (Moved (λ a. a ≡ call_data) idle) (Moved Planned idle)
        idle _ _
        (pure-Follows (Legal env clients plan) (Moved (λ a. a ≡ call_data) idle) idle call_data
          (refl, refl))
        (λ a q h. rw (h.0, h.1) (sign-Follows call_data e)) (λ x q h. h)
  encode-Follows (failed message) e =
      bind-Follows (Legal env clients plan) (Moved (λ a. ⊥) idle) (Moved Planned idle) idle _ _
        (throw-Follows (Legal env clients plan) (Moved (λ a. ⊥) idle) idle (unexpected message)
          refl)
        (λ a q h. absurd h.0) (λ x q h. h)

  abbrev pub Built : UserOp × Text → Phase → Type 0
  Built built r = Planned built × (r ≡ idle)

  pub build_and_sign-Follows :
      Follows
        (Legal env clients plan)
        idle
        (build_and_sign env clients plan)
        (Verdict Built IsAborted)
  unfolding build_and_sign
  build_and_sign-Follows =
      rethrow-Follows (Legal env clients plan) (Moved Planned idle) (Verdict Built IsAborted) idle _
        _ (encode-Follows plan.call_data refl) (λ built q h. h)
        (λ x q h.
          rw (Stranded-phase idle q x h)
            (abort-Follows Built idle _ _ _ (λ id now hist. abort_idle id _ now)))

  -- The bundler has the UserOperation, and returned its hash.
  abbrev pub Accepted : UserOp × Text → Phase → Type 0
  Accepted built r =
      (returned : Text) × (user_op_hashes_equal built.1 returned ≡ true)
      × (r ≡ in_flight built (answered returned))

  compare-Follows :
      (built : UserOp × Text) (returned : Text) (b : Bool) (code reason message : Text)
      → user_op_hashes_equal built.1 returned ≡ b
      → Follows
          (Legal env clients plan)
          (in_flight built (answered returned))
          (if b then pure tt else abort env plan.execution_plan_id code reason message)
          (Verdict (λ u r. Accepted built r) IsAborted)
  compare-Follows built returned true code reason message e =
      pure-Follows (Legal env clients plan) (Verdict (λ u r. Accepted built r) IsAborted)
        (in_flight built (answered returned)) tt (returned, e, refl)
  compare-Follows built returned false code reason message e =
      abort-Follows (λ u r. Accepted built r) (in_flight built (answered returned)) code reason
        message (λ id now hist. abort_mismatched built returned id reason now e)

  pub submit-Follows :
      (built : UserOp × Text)
      → IsPlanned env clients plan built.0 built.1
      → Follows
          (Legal env clients plan)
          idle
          (submit env clients plan built.0 built.1)
          (Verdict (λ u r. Accepted built r) IsAborted)
  unfolding submit
  submit-Follows built planned =
      bind-Follows (Legal env clients plan)
        (Verdict (λ returned r. r ≡ in_flight built (answered returned)) IsAborted)
        (Verdict (λ u r. Accepted built r) IsAborted) idle _ _
        (guarded_call-Follows idle (in_flight built) (submitted built.0) _ _ _ _
          (λ hist. Protocol.send planned)
          (λ m id text now hist. abort_rejected built m id text now))
        (λ returned r e.
          rw e (compare-Follows built returned (user_op_hashes_equal built.1 returned) _ _ _ refl))
        (λ x r e. e)

  pub announce-Follows :
      (built : UserOp × Text) (p : Phase)
      → Accepted built p
      → Follows
          (Legal env clients plan)
          p
          (announce env clients plan built.1 (format_nonce_hex built.0.nonce))
          (Sent (announced built))
  unfolding announce
  announce-Follows built p a = rw a.2 (
      callback-Follows (in_flight built (answered a.0)) (announced built) _
        (λ id now hist. Protocol.announce built a.0 id now a.1))

  pub wait_for_receipt-Follows :
      (built : UserOp × Text)
      → Follows
          (Legal env clients plan)
          (announced built)
          (wait_for_receipt env clients plan built.1)
          (Verdict (λ receipt r. r ≡ awaiting built (answered receipt)) IsAborted)
  unfolding wait_for_receipt
  wait_for_receipt-Follows built =
      guarded_call-Follows (announced built) (awaiting built) (awaited built.1) _ _ _ _
        (λ hist. wait built) (λ m id text now hist. abort_unconfirmed built m id text now)
