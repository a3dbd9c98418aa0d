-- ===== src/Execution/Swap/Envelope.antt =====
-- chain_adapter/src/chains/base/swap.ts: `checkSwapEnvelope`, a helper to each of its numbered
-- steps. `Date.parse` is a parameter; it gives `none` for NaN, and 0 for a time before 1970.
use cryptokorr.Common.{
  ℕ, Text, codes, text_eq, to_lower, nonempty, or_else, leb, ◌==◌, if◌then◌else◌, Bool, true, false,
  ◌||◌, not, Option, none, some, List, [], ◌∷◌, ◌++◌,
}
use cryptokorr.Config.Assets.{decimals_for_swap_asset, parse_amount}
use cryptokorr.Contracts.Dispatch.{SwapRoute, DispatchSwap}

abbrev pub zerox_native_eth : Text
zerox_native_eth = codes "0xeeeeeeeeeeeeeeeeeeeeeeeeeeeeeeeeeeeeeeee"

pub record CheckedSwap : Type 0 where
  pub input_token : Text
  pub spender : Text
  pub swap_target : Text
  pub swap_calldata : Text
  pub swap_value : ℕ
  pub input_amount_base_units : ℕ
  pub input_decimals : ℕ
  pub output_decimals : ℕ

-- `{ ok: true; ... } | { ok: false; reason }`
pub data Checked (A : Type 0) : Type 0 where
  passed : A → Checked A
  refused : Text → Checked A

infixl 5 ◌>>=◌ ◌>>◌
abbrev pub ◌>>=◌ : {A B : Type 0} → Checked A → (A → Checked B) → Checked B
passed a >>= f = f a
refused reason >>= f = refused reason

abbrev pub ◌>>◌ : {A B : Type 0} → Checked A → Checked B → Checked B
m >> k = m >>= λ _. k

abbrev pub require : Bool → Text → Checked (Unit {0})
require b reason = if b then passed tt else refused reason

-- A value that must be there.
abbrev pub require_some : {A : Type 0} → Option A → Text → Checked A
require_some none reason = refused reason
require_some (some a) reason = passed a

-- `!!s`, for a string that may be undefined.
unfoldable pub truthy : Option Text → Bool
truthy none = false
truthy (some s) = nonempty s

unfoldable pub is_supported_provider : Text → Bool
is_supported_provider provider = text_eq provider (codes "zerox") || text_eq provider (codes "0x")

unfoldable pub check_provider : SwapRoute → Checked (Unit {0})
unfolding truthy is_supported_provider
check_provider route = do
  require (truthy route.route_provider) (codes "swap_route_incomplete: route_provider")
  require (is_supported_provider (to_lower (or_else route.route_provider [])))
      (codes "unsupported_provider: " ++ to_lower (or_else route.route_provider []))

abbrev pub missing_if : Bool → Text → List Text → List Text
missing_if true field fields = fields
missing_if false field fields = field ∷ fields

abbrev pub is_defined : Option Text → Bool
is_defined none = false
is_defined (some s) = true

unfoldable pub missing_fields : SwapRoute → List Text
unfolding truthy
missing_fields route =
    missing_if (truthy route.swap_target_contract) (codes "swap_target_contract") (
      missing_if (truthy route.calldata) (codes "calldata") (
        missing_if (truthy route.spender) (codes "spender") (
          missing_if (truthy route.source_token_address) (codes "source_token_address") (
            missing_if (truthy route.destination_token_address) (codes "destination_token_address")
              (missing_if (is_defined route.value) (codes "value") (
                missing_if (truthy route.minimum_output_amount) (codes "minimum_output_amount")
                  []))))))

-- `missing.join(",")`
unfoldable pub join : List Text → Text
join [] = []
join (s ∷ []) = s
join (s ∷ t ∷ rest) = s ++ codes "," ++ join (t ∷ rest)

unfoldable pub check_missing : List Text → Checked (Unit {0})
unfolding join
check_missing [] = passed tt
check_missing (s ∷ rest) = refused (codes "swap_route_incomplete: " ++ join (s ∷ rest))

-- Step 5: only a deadline that is there and not empty is checked.
unfoldable pub check_deadline : (Text → Option ℕ) → Option Text → ℕ → Checked (Unit {0})
check_deadline date_parse none now = passed tt
check_deadline date_parse (some []) now = passed tt
check_deadline date_parse (some (c ∷ s)) now = do
  deadline_ms ← require_some (date_parse (c ∷ s)) (codes "swap_route_incomplete: deadline")
  require (not (leb deadline_ms now)) (codes "stale_route")

-- Steps 6 and 7.
unfoldable pub check_amount : DispatchSwap → ℕ → Checked ℕ
check_amount d decimals = do
  n ←
      require_some (parse_amount d.input_amount decimals)
        (codes "swap_route_incomplete: input_amount")
  require (not (leb n 0)) (codes "swap_route_incomplete: input_amount")
  passed n

unfoldable pub check_value : SwapRoute → Checked ℕ
check_value route = do
  value ←
      require_some (parse_amount (or_else route.value []) 18) (codes "swap_route_incomplete: value")
  require (value == 0) (codes "non_zero_value_with_erc20_input")
  passed value

-- The `!` of the source follows step 2, after which every field is there.
unfoldable pub check_swap_envelope : (Text → Option ℕ) → DispatchSwap → ℕ → Checked CheckedSwap
check_swap_envelope date_parse d now = do
  let route = d.route
  check_provider route
  check_missing (missing_fields route)
  require (not (text_eq (to_lower (or_else route.source_token_address [])) zerox_native_eth))
      (codes "native_input_not_implemented")
  input_decimals ←
      require_some (decimals_for_swap_asset d.input_asset)
        (codes "unsupported_input_asset: " ++ d.input_asset)
  output_decimals ←
      require_some (decimals_for_swap_asset d.output_asset)
        (codes "unsupported_output_asset: " ++ d.output_asset)
  check_deadline date_parse route.deadline now
  amount ← check_amount d input_decimals
  value ← check_value route
  passed (record {
    input_token = or_else route.source_token_address [];
    spender = or_else route.spender [];
    swap_target = or_else route.swap_target_contract [];
    swap_calldata = or_else route.calldata [];
    swap_value = value;
    input_amount_base_units = amount;
    input_decimals = input_decimals;
    output_decimals = output_decimals;
  })
