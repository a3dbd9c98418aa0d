-- ===== src/Tests/Transfers.antt =====
-- chain_adapter/src/dispatch/transfer.ts, run on the dispatches of `Fixtures`.
use cryptokorr.Common.{ℕ, Text, codes, text_eq, ◌≡◌, refl, ap, ◌∙◌, inl, Option, none, some, []}
use cryptokorr.Config.Assets.{parse_amount}
use cryptokorr.Contracts.Primitives.{decimal_string, hex_address}
use cryptokorr.Contracts.Dispatch.{DispatchTransfer, transfer_schema}
use cryptokorr.Execution.Protocol.{Phase, Course}
use cryptokorr.Execution.Protocol.Runs.{Concluded, run_plan-Course}
use cryptokorr.Execution.Pipeline.{run_plan}
use cryptokorr.Execution.Transfer.{usdc_decimals, transfer_plan}
use cryptokorr.Dispatch.Gates.{Refuses}
use cryptokorr.Dispatch.Transfer.{handle_transfer_dispatch}
use cryptokorr.Dispatch.Transfer.Admission.{
  IsAdmitted, Dispatched, handle_transfer_dispatch-Course, handle_transfer_dispatch-Refuses,
}
use cryptokorr.Trace.Acknowledged.{ReturnsAcknowledged}
use cryptokorr.Tests.Fixtures.{plan_id, env, clients, world, transfer, usdc_address}

run_plan-Course_example :
    (q : Phase) × Course env clients
      (transfer_plan env clients usdc_address transfer 1250000)
      []
      q
      (run_plan env clients
        (transfer_plan env clients usdc_address transfer 1250000)
        world).1.history
    × Concluded
        (run_plan env clients (transfer_plan env clients usdc_address transfer 1250000) world).0
        q
run_plan-Course_example =
    run_plan-Course env clients (transfer_plan env clients usdc_address transfer 1250000) world

transfer-IsAdmitted : IsAdmitted env transfer
unfolding transfer_schema text_eq decimal_string hex_address
transfer-IsAdmitted = record { valid = refl; chain = inl refl; asset = refl }

handle_transfer_dispatch-Course_example :
    (n : ℕ) × (parse_amount (codes "1.25") usdc_decimals ≡ some n)
    × ((q : Phase) × Course env clients
          (transfer_plan env clients usdc_address transfer n)
          []
          q
          (handle_transfer_dispatch env clients usdc_address (some transfer) world).1.history
        × Dispatched plan_id
            (handle_transfer_dispatch env clients usdc_address (some transfer) world).0
            q)
    × ReturnsAcknowledged env
        (handle_transfer_dispatch env clients usdc_address (some transfer) world).0
        (handle_transfer_dispatch env clients usdc_address (some transfer) world).1.history
handle_transfer_dispatch-Course_example =
    handle_transfer_dispatch-Course env clients usdc_address transfer world transfer-IsAdmitted

abbrev of_dai : DispatchTransfer
of_dai = record transfer { asset = codes "DAI" }

abbrev asset_of : Option DispatchTransfer → Text
asset_of none = []
asset_of (some d) = d.asset

dai_is_not_usdc : ¬ (codes "DAI" ≡ codes "USDC")
dai_is_not_usdc e = cc

of_dai-IsAdmitted_not : (d : DispatchTransfer) → some of_dai ≡ some d → ¬ IsAdmitted env d
of_dai-IsAdmitted_not d e a = dai_is_not_usdc (ap asset_of e ∙ a.asset)

handle_transfer_dispatch-Refuses_example :
    Refuses (handle_transfer_dispatch env clients usdc_address (some of_dai)) world
handle_transfer_dispatch-Refuses_example =
    handle_transfer_dispatch-Refuses env clients usdc_address (some of_dai) world
      of_dai-IsAdmitted_not
