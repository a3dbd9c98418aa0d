-- ===== src/Dispatch/MorphoDeposit/Admission.antt =====
-- What a Morpho deposit dispatch does, on every body.
use cryptokorr.Common.{
  ℕ, Text, codes, ◌≡◌, refl, inl, inr, true, Option, none, some, arith, ◌∙◌, ap, sym,
}
use cryptokorr.Config.Chains.{
  base_sepolia_chain, is_supported_chain, is_supported_morpho_deposit_chain,
}
use cryptokorr.Config.Assets.{is_supported_asset, parse_amount}
use cryptokorr.Contracts.Primitives.{decimal_string}
use cryptokorr.Contracts.Amounts.{decimal_string-parse_amount}
use cryptokorr.Contracts.Dispatch.{DispatchMorphoDeposit, morpho_deposit_schema}
use cryptokorr.Errors.{status_code}
use cryptokorr.Effect.{Env, BaseClients, World, Outcome}
use cryptokorr.Execution.Transfer.{usdc_decimals}
use cryptokorr.Execution.Morpho.{morpho_deposit_plan, execute_morpho_deposit}
use cryptokorr.Execution.Protocol.{IsAborted, Legal, Phase, idle, finished, Course}
use cryptokorr.Trace.{Verdict, Follows, begin}
use cryptokorr.Trace.Rules.{bind-Follows, pure-Follows}
use cryptokorr.Execution.Protocol.Runs.{Concluded, run_plan-Follows}
use cryptokorr.Dispatch.Gates.{
  Refuses, throw-Refuses, guard-Refuses, is_supported_chain_complete,
  is_supported_morpho_deposit_chain_sound, is_supported_morpho_deposit_chain_complete,
  is_supported_asset_sound, is_supported_asset_complete,
}
use cryptokorr.Dispatch.Swap.Admission.{reported_state, reported_state-status_of}
use cryptokorr.Dispatch.MorphoDeposit.{
  MorphoDepositDispatchResult, run_morpho_deposit, dispatch_morpho_deposit,
  handle_morpho_deposit_dispatch,
}

-- A body that the handler accepts: only Base Sepolia, and only USDC.
pub record IsAdmitted (env : Env) (d : DispatchMorphoDeposit) : Type 0 where
  pub valid : morpho_deposit_schema env.zod d ≡ true
  pub chain : d.chain ≡ base_sepolia_chain
  pub asset : d.asset ≡ codes "USDC"

abbrev pub Dispatched : Text → Outcome MorphoDepositDispatchResult → Phase → Type 0
Dispatched id =
    Verdict
      (λ result q. (result.execution_plan_id ≡ id) × (q ≡ finished (reported_state result.status)))
      IsAborted

morpho_deposit_schema-amount :
    (env : Env) (d : DispatchMorphoDeposit)
    → morpho_deposit_schema env.zod d ≡ true
    → decimal_string d.amount ≡ true
unfolding morpho_deposit_schema
morpho_deposit_schema-amount env d h = ground arith

module _ (env : Env) (usdc_address : Text) where
  -- A deposit body that the handler does not accept is answered with a 400 or a 422, and nothing
  -- else happens. That includes every deposit on Base mainnet.
  pub handle_morpho_deposit_dispatch-Refuses :
      (clients : Option BaseClients) (body : Option DispatchMorphoDeposit) (w : World)
      → ((d : DispatchMorphoDeposit) → body ≡ some d → ¬ IsAdmitted env d)
      → Refuses (handle_morpho_deposit_dispatch env usdc_address clients body) w
  unfolding handle_morpho_deposit_dispatch status_code
  handle_morpho_deposit_dispatch-Refuses clients none w h = throw-Refuses _ w (inl refl)
  handle_morpho_deposit_dispatch-Refuses clients (some d) w h =
      guard-Refuses (morpho_deposit_schema env.zod d) _ _ w (inl refl) λ valid.
        guard-Refuses (is_supported_chain d.chain) _ _ w (inr refl) λ chain.
          guard-Refuses (is_supported_morpho_deposit_chain d.chain) _ _ w (inr refl) λ narrow.
            guard-Refuses (is_supported_asset d.asset) _ _ w (inr refl) λ asset. absurd (
              h d refl (record {
                valid = valid;
                chain = is_supported_morpho_deposit_chain_sound d.chain narrow;
                asset = is_supported_asset_sound d.asset asset;
              }))

  deposit-Follows :
      (clients : BaseClients) (d : DispatchMorphoDeposit) (n : ℕ)
      → parse_amount d.amount usdc_decimals ≡ some n
      → Follows
          (Legal env clients (morpho_deposit_plan env clients usdc_address d n))
          idle
          (run_morpho_deposit env usdc_address (some clients) d)
          (Dispatched d.execution_plan_id)
  unfolding run_morpho_deposit execute_morpho_deposit
  deposit-Follows clients d n e =
      let plan = morpho_deposit_plan env clients usdc_address d n in
      bind-Follows (Legal env clients plan) Concluded (Dispatched d.execution_plan_id) idle _ _
        (rw e (run_plan-Follows env clients plan))
        (λ result q h.
          pure-Follows (Legal env clients plan) (Dispatched d.execution_plan_id) q _
            (refl, h ∙ ap finished (sym (reported_state-status_of result.status))))
        (λ x q h. h)

  -- An accepted deposit has an amount `n` in base units, and takes the course of the plan that
  -- approves `n` for the vault and deposits it for the adapter's own account, in one batch; it
  -- answers with the status of its last callback.
  pub handle_morpho_deposit_dispatch-Course :
      (clients : BaseClients) (d : DispatchMorphoDeposit) (w : World)
      → IsAdmitted env d
      → (n : ℕ) × (parse_amount d.amount usdc_decimals ≡ some n)
        × ((q : Phase) × Course env clients
              (morpho_deposit_plan env clients usdc_address d n)
              w.history
              q
              (handle_morpho_deposit_dispatch env usdc_address (some clients) (some d) w).1.history
            × Dispatched d.execution_plan_id
                (handle_morpho_deposit_dispatch env usdc_address (some clients) (some d) w).0
                q)
  unfolding handle_morpho_deposit_dispatch dispatch_morpho_deposit
  handle_morpho_deposit_dispatch-Course clients d w a =
      let (n, e) =
        decimal_string-parse_amount d.amount usdc_decimals
          (morpho_deposit_schema-amount env d a.valid) in
      (
        n,
        e,
        rw
            (
              a.valid,
              is_supported_chain_complete d.chain (inr a.chain),
              is_supported_morpho_deposit_chain_complete d.chain a.chain,
              is_supported_asset_complete d.asset a.asset,
            )
            (deposit-Follows clients d n e idle w.history w begin),
      )
