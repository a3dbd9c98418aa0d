-- ===== src/Execution/Swap/Requirement.antt =====
-- What chain_adapter/src/chains/base/swap.ts asks of a swap's route before it executes it, as one
-- description without the order of the checks.
use cryptokorr.Common.{
  ℕ, ◌<◌, Text, codes, to_lower, nonempty, ◌≡◌, ◌≢◌, ◌⊎◌, true, Option, none, some, [], ◌∷◌,
}
use cryptokorr.Config.Assets.{decimals_for_swap_asset, parse_amount}
use cryptokorr.Contracts.Dispatch.{SwapRoute, DispatchSwap}
use cryptokorr.Execution.Swap.Envelope.{zerox_native_eth, CheckedSwap, is_defined, truthy}

-- There is a text, and it is not empty.
abbrev pub Present : Option Text → Text → Type 0
Present field s = (field ≡ some s) × (nonempty s ≡ true)

abbrev pub IsFresh : (Text → Option ℕ) → Option Text → ℕ → Type 0
IsFresh date_parse none now = Unit {0}
IsFresh date_parse (some []) now = Unit {0}
IsFresh date_parse (some (c ∷ s)) now = (ms : ℕ) × (date_parse (c ∷ s) ≡ some ms) × (now < ms)

pub record IsExecutable (date_parse : Text → Option ℕ) (d : DispatchSwap) (now : ℕ)
    (c : CheckedSwap) : Type 0 where
  pub provider :
      (p : Text) × (d.route.route_provider ≡ some p)
      × ((to_lower p ≡ codes "zerox") ⊎ (to_lower p ≡ codes "0x"))
  pub target : Present d.route.swap_target_contract c.swap_target
  pub calldata : Present d.route.calldata c.swap_calldata
  pub spender : Present d.route.spender c.spender
  pub source : Present d.route.source_token_address c.input_token
  pub destination : (t : Text) × Present d.route.destination_token_address t
  pub minimum_output : (m : Text) × Present d.route.minimum_output_amount m
  pub not_native : to_lower c.input_token ≢ zerox_native_eth
  pub input_asset : decimals_for_swap_asset d.input_asset ≡ some c.input_decimals
  pub output_asset : decimals_for_swap_asset d.output_asset ≡ some c.output_decimals
  pub fresh : IsFresh date_parse d.route.deadline now
  pub amount : parse_amount d.input_amount c.input_decimals ≡ some c.input_amount_base_units
  pub amount_positive : 0 < c.input_amount_base_units
  pub value : (v : Text) × (d.route.value ≡ some v) × (parse_amount v 18 ≡ some 0)
  pub no_value : c.swap_value ≡ 0

-- Every execution field is there.
pub record IsComplete (route : SwapRoute) : Type 0 where
  pub target : truthy route.swap_target_contract ≡ true
  pub calldata : truthy route.calldata ≡ true
  pub spender : truthy route.spender ≡ true
  pub source : truthy route.source_token_address ≡ true
  pub destination : truthy route.destination_token_address ≡ true
  pub value : is_defined route.value ≡ true
  pub minimum_output : truthy route.minimum_output_amount ≡ true
