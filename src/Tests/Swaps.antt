-- ===== src/Tests/Swaps.antt =====
-- chain_adapter/src/dispatch/swap.ts, run on the dispatches of `Fixtures`.
use cryptokorr.Common.{
  Text, codes, text_eq, to_lower, to_upper, ◌≡◌, refl, ap, ◌∙◌, Option, none, some, [], ◌↔◌,
}
use cryptokorr.Config.Chains.{base_chain, base_sepolia_chain}
use cryptokorr.Config.Assets.{parse_amount, decimals_for_swap_asset}
use cryptokorr.Contracts.Primitives.{decimal_string, hex_address}
use cryptokorr.Contracts.Dispatch.{DispatchSwap, swap_schema}
use cryptokorr.Execution.Aborts.{OnlyAborts}
use cryptokorr.Execution.Swap.{
  CheckedSwap, passed, refused, check_provider, check_missing, missing_fields, check_deadline,
  check_amount, check_value, check_swap_envelope,
}
use cryptokorr.Execution.Swap.Requirement.{IsExecutable}
use cryptokorr.Execution.Swap.Executable.{check_swap_envelope_iff}
use cryptokorr.Dispatch.Gates.{Refuses}
use cryptokorr.Dispatch.Swap.{handle_swap_dispatch}
use cryptokorr.Dispatch.Swap.Admission.{
  IsAdmitted, aborted_result, handle_swap_dispatch-aborts, handle_swap_dispatch-Refuses,
}
use cryptokorr.Tests.Fixtures.{plan_id, env, clients, world, swap_on}

abbrev good : DispatchSwap
good = swap_on base_sepolia_chain (codes "ZeroX")

abbrev by_uniswap : DispatchSwap
by_uniswap = swap_on base_sepolia_chain (codes "uniswap")

abbrev on_mainnet : DispatchSwap
on_mainnet = swap_on base_chain (codes "zerox")

abbrev checked : CheckedSwap
checked = record {
  input_token = codes "0xc4";
  spender = codes "0xc3";
  swap_target = codes "0xc1";
  swap_calldata = codes "0xc2";
  swap_value = 0;
  input_amount_base_units = 2500000;
  input_decimals = 6;
  output_decimals = 18;
}

by_uniswap_refused :
    check_swap_envelope env.date_parse by_uniswap 1000
    ≡ refused (codes "unsupported_provider: uniswap")
unfolding check_swap_envelope check_provider text_eq to_lower check_missing missing_fields
    decimals_for_swap_asset to_upper check_deadline check_amount parse_amount check_value
by_uniswap_refused = refl

stale_refused : check_swap_envelope env.date_parse good 2000 ≡ refused (codes "stale_route")
unfolding check_swap_envelope check_provider text_eq to_lower check_missing missing_fields
    decimals_for_swap_asset to_upper check_deadline check_amount parse_amount check_value
stale_refused = refl

by_uniswap-IsAdmitted : IsAdmitted env by_uniswap
unfolding swap_schema text_eq decimal_string hex_address
by_uniswap-IsAdmitted = record { valid = refl; chain = refl }

check_swap_envelope_iff_example :
    (check_swap_envelope env.date_parse good 1000 ≡ passed checked)
    ↔ IsExecutable env.date_parse good 1000 checked
check_swap_envelope_iff_example = check_swap_envelope_iff env.date_parse good 1000 checked

handle_swap_dispatch-aborts_example :
    OnlyAborts env plan_id
      (codes "unsupported_provider: uniswap")
      (aborted_result by_uniswap (codes "unsupported_provider: uniswap"))
      (handle_swap_dispatch env (some clients) 1000 (some by_uniswap))
      world
handle_swap_dispatch-aborts_example =
    handle_swap_dispatch-aborts env clients by_uniswap (codes "unsupported_provider: uniswap") 1000
      world by_uniswap-IsAdmitted by_uniswap_refused

abbrev chain_of : Option DispatchSwap → Text
chain_of none = []
chain_of (some d) = d.chain

base_is_not_sepolia : ¬ (base_chain ≡ base_sepolia_chain)
base_is_not_sepolia e = cc

on_mainnet-IsAdmitted_not : (d : DispatchSwap) → some on_mainnet ≡ some d → ¬ IsAdmitted env d
on_mainnet-IsAdmitted_not d e a = base_is_not_sepolia (ap chain_of e ∙ a.chain)

handle_swap_dispatch-Refuses_example :
    Refuses (handle_swap_dispatch env (some clients) 1000 (some on_mainnet)) world
handle_swap_dispatch-Refuses_example =
    handle_swap_dispatch-Refuses env (some clients) 1000 (some on_mainnet) world
      on_mainnet-IsAdmitted_not
