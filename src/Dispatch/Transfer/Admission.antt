-- ===== src/Dispatch/Transfer/Admission.antt =====
-- What a transfer dispatch does, on every body.
use cryptokorr.Common.{ℕ, Text, codes, ◌≡◌, refl, ◌⊎◌, inl, inr, true, Option, none, some, arith}
use cryptokorr.Config.Chains.{base_chain, base_sepolia_chain, is_supported_chain}
use cryptokorr.Config.Assets.{is_supported_asset, parse_amount}
use cryptokorr.Contracts.Primitives.{decimal_string}
use cryptokorr.Contracts.Amounts.{decimal_string-parse_amount}
use cryptokorr.Contracts.Dispatch.{DispatchTransfer, transfer_schema}
use cryptokorr.Errors.{status_code}
use cryptokorr.Effect.{Env, BaseClients, Outcome, World}
use cryptokorr.Execution.Pipeline.{TransferStatus, success}
use cryptokorr.Execution.Transfer.{usdc_decimals, execute_transfer, transfer_plan}
use cryptokorr.Execution.Protocol.{
  IsAborted, Legal, confirmed, reverted, Phase, idle, finished, Course,
}
use cryptokorr.Trace.{Verdict, Follows, begin}
use cryptokorr.Trace.Rules.{seq-Follows, pure-Follows}
use cryptokorr.Trace.Acknowledged.{
  ReturnsAcknowledged, ReturnsAcknowledged-cases, Acknowledges, then_pure-Acknowledges,
}
use cryptokorr.Execution.Returned.{run_plan-Acknowledges}
use cryptokorr.Execution.Protocol.Runs.{ending, Concluded, run_plan-Follows}
use cryptokorr.Dispatch.Gates.{
  Refuses, throw-Refuses, guard-Refuses, is_supported_chain_sound, is_supported_chain_complete,
  is_supported_asset_sound, is_supported_asset_complete,
}
use cryptokorr.Dispatch.Transfer.{TransferDispatchResult, run_transfer, handle_transfer_dispatch}

-- A body that the handler accepts.
pub record IsAdmitted (env : Env) (d : DispatchTransfer) : Type 0 where
  pub valid : transfer_schema env.zod d ≡ true
  pub chain : (d.chain ≡ base_chain) ⊎ (d.chain ≡ base_sepolia_chain)
  pub asset : d.asset ≡ codes "USDC"

abbrev pub Mined : Phase → Type 0
Mined q = (q ≡ finished confirmed) ⊎ (q ≡ finished reverted)

abbrev pub Dispatched : Text → Outcome TransferDispatchResult → Phase → Type 0
Dispatched id = Verdict (λ result q. (result.execution_plan_id ≡ id) × Mined q) IsAborted

Mined-ending : (s : TransferStatus) (q : Phase) → q ≡ finished (ending s) → Mined q
Mined-ending success q h = inl h
Mined-ending TransferStatus.reverted q h = inr h

transfer_schema-amount :
    (env : Env) (d : DispatchTransfer)
    → transfer_schema env.zod d ≡ true
    → decimal_string d.amount ≡ true
unfolding transfer_schema
transfer_schema-amount env d h = ground arith

module _ (env : Env) (clients : BaseClients) (usdc_address : Text) where
  -- A transfer body that the handler does not accept is answered with a 400 or a 422, and nothing
  -- else happens.
  pub handle_transfer_dispatch-Refuses :
      (body : Option DispatchTransfer) (w : World)
      → ((d : DispatchTransfer) → body ≡ some d → ¬ IsAdmitted env d)
      → Refuses (handle_transfer_dispatch env clients usdc_address body) w
  unfolding handle_transfer_dispatch status_code
  handle_transfer_dispatch-Refuses none w h = throw-Refuses _ w (inl refl)
  handle_transfer_dispatch-Refuses (some d) w h =
      guard-Refuses (transfer_schema env.zod d) _ _ w (inl refl) λ valid.
        guard-Refuses (is_supported_chain d.chain) _ _ w (inr refl) λ chain.
          guard-Refuses (is_supported_asset d.asset) _ _ w (inr refl) λ asset. absurd (
            h d refl (record {
              valid = valid;
              chain = is_supported_chain_sound d.chain chain;
              asset = is_supported_asset_sound d.asset asset;
            }))

  transfer-Follows :
      (d : DispatchTransfer) (n : ℕ)
      → parse_amount d.amount usdc_decimals ≡ some n
      → Follows
          (Legal env clients (transfer_plan env clients usdc_address d n))
          idle
          (run_transfer env clients usdc_address d)
          (Dispatched d.execution_plan_id)
  unfolding run_transfer execute_transfer
  transfer-Follows d n e =
      let plan = transfer_plan env clients usdc_address d n in
      seq-Follows (Legal env clients plan) Concluded (Dispatched d.execution_plan_id) idle _ _
        (rw e (run_plan-Follows env clients plan))
        (λ result q h.
          pure-Follows (Legal env clients plan) (Dispatched d.execution_plan_id) q _
            (refl, Mined-ending result.status q h))
        (λ x q h. h)

  transfer-Acknowledges :
      (d : DispatchTransfer) (n : ℕ)
      → parse_amount d.amount usdc_decimals ≡ some n
      → Acknowledges env (run_transfer env clients usdc_address d)
  unfolding run_transfer execute_transfer
  transfer-Acknowledges d n e =
      then_pure-Acknowledges env _ _
        (rw e (run_plan-Acknowledges env clients (transfer_plan env clients usdc_address d n)))

  admitted-run :
      (d : DispatchTransfer)
      → IsAdmitted env d
      → handle_transfer_dispatch env clients usdc_address (some d)
        ≡ run_transfer env clients usdc_address d
  unfolding handle_transfer_dispatch
  admitted-run d a = rw (
    a.valid,
    is_supported_chain_complete d.chain a.chain,
    is_supported_asset_complete d.asset a.asset,
  )

  -- An accepted transfer has an amount `n` in base units, and takes the course of the plan that
  -- transfers `n` to the target: it returns only once it was confirmed or reverted, its last event
  -- being the callback that says so, which Phoenix answered with a response that is ok; and otherwise
  -- throws an `ExecutionError` after `execution.aborted`, or a `CallbackError`.
  pub handle_transfer_dispatch-Course :
      (d : DispatchTransfer) (w : World)
      → IsAdmitted env d
      → (n : ℕ) × (parse_amount d.amount usdc_decimals ≡ some n)
        × ((q : Phase) × Course env clients
              (transfer_plan env clients usdc_address d n)
              w.history
              q
              (handle_transfer_dispatch env clients usdc_address (some d) w).1.history
            × Dispatched d.execution_plan_id
                (handle_transfer_dispatch env clients usdc_address (some d) w).0
                q)
        × ReturnsAcknowledged env
            (handle_transfer_dispatch env clients usdc_address (some d) w).0
            (handle_transfer_dispatch env clients usdc_address (some d) w).1.history
  handle_transfer_dispatch-Course d w a =
      let (n, e) =
        decimal_string-parse_amount d.amount usdc_decimals (transfer_schema-amount env d a.valid) in
      rw (admitted-run d a) (
        n,
        e,
        transfer-Follows d n e idle w.history w begin,
        ReturnsAcknowledged-cases env _ _ (λ result. transfer-Acknowledges d n e w result),
      )
