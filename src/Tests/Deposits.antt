-- ===== src/Tests/Deposits.antt =====
-- chain_adapter/src/dispatch/morpho_deposit.ts, run on the dispatches of `Fixtures`.
use cryptokorr.Common.{ℕ, Text, codes, text_eq, ◌≡◌, refl, ap, ◌∙◌, Option, none, some, []}
use cryptokorr.Config.Chains.{base_chain, base_sepolia_chain}
use cryptokorr.Config.Assets.{parse_amount}
use cryptokorr.Contracts.Primitives.{decimal_string, hex_address}
use cryptokorr.Contracts.Dispatch.{DispatchMorphoDeposit, morpho_deposit_schema}
use cryptokorr.Execution.Protocol.{Phase, Course}
use cryptokorr.Execution.Transfer.{usdc_decimals}
use cryptokorr.Execution.Morpho.{morpho_deposit_plan}
use cryptokorr.Dispatch.Gates.{Refuses}
use cryptokorr.Dispatch.MorphoDeposit.{handle_morpho_deposit_dispatch}
use cryptokorr.Dispatch.MorphoDeposit.Admission.{
  IsAdmitted, Dispatched, handle_morpho_deposit_dispatch-Course,
  handle_morpho_deposit_dispatch-Refuses,
}
use cryptokorr.Tests.Fixtures.{plan_id, env, clients, world, deposit_on, usdc_address}

abbrev good : DispatchMorphoDeposit
good = deposit_on base_sepolia_chain

abbrev on_mainnet : DispatchMorphoDeposit
on_mainnet = deposit_on base_chain

good-IsAdmitted : IsAdmitted env good
unfolding morpho_deposit_schema text_eq decimal_string hex_address
good-IsAdmitted = record { valid = refl; chain = refl; asset = refl }

handle_morpho_deposit_dispatch-Course_example :
    (n : ℕ) × (parse_amount (codes "3.5") usdc_decimals ≡ some n)
    × ((q : Phase) × Course env clients
          (morpho_deposit_plan env clients usdc_address good n)
          []
          q
          (handle_morpho_deposit_dispatch env usdc_address
            (some clients)
            (some good)
            world).1.history
        × Dispatched plan_id
            (handle_morpho_deposit_dispatch env usdc_address (some clients) (some good) world).0
            q)
handle_morpho_deposit_dispatch-Course_example =
    handle_morpho_deposit_dispatch-Course env usdc_address clients good world good-IsAdmitted

abbrev chain_of : Option DispatchMorphoDeposit → Text
chain_of none = []
chain_of (some d) = d.chain

base_is_not_sepolia : ¬ (base_chain ≡ base_sepolia_chain)
base_is_not_sepolia e = cc

on_mainnet-IsAdmitted_not :
    (d : DispatchMorphoDeposit) → some on_mainnet ≡ some d → ¬ IsAdmitted env d
on_mainnet-IsAdmitted_not d e a = base_is_not_sepolia (ap chain_of e ∙ a.chain)

handle_morpho_deposit_dispatch-Refuses_example :
    Refuses (handle_morpho_deposit_dispatch env usdc_address (some clients) (some on_mainnet)) world
handle_morpho_deposit_dispatch-Refuses_example =
    handle_morpho_deposit_dispatch-Refuses env usdc_address (some clients) (some on_mainnet) world
      on_mainnet-IsAdmitted_not
