-- ===== src/Config/Assets.antt =====
-- chain_adapter/src/config/assets.ts: asset allowlists, decimals and the conversion of a decimal
-- string to base units. `none` stands for the SyntaxError that `BigInt` throws.
pub mod Amount
use cryptokorr.Common.{
  ℕ, ◌+◌, ◌-◌, ◌*◌, ◌^◌, Text, codes, text_eq, to_upper, is_digit, take, replicate, length, Bool,
  Option, none, some, List, [], ◌∷◌, ◌++◌, ◌==◌, if◌then◌else◌,
}

unfoldable pub is_supported_asset : Text → Bool
is_supported_asset asset = text_eq asset (codes "USDC")

-- `SWAP_ASSET_DECIMALS`, as the pairs of its literal.
abbrev pub swap_asset_decimals : List (Text × ℕ)
swap_asset_decimals =
    (codes "USDC", 6) ∷ (codes "USDT", 6) ∷ (codes "ETH", 18) ∷ (codes "WETH", 18) ∷ []

unfoldable pub lookup : Text → List (Text × ℕ) → Option ℕ
lookup k [] = none
lookup k ((j, n) ∷ rest) = if text_eq k j then some n else lookup k rest

unfoldable pub decimals_for_swap_asset : Text → Option ℕ
unfolding lookup
decimals_for_swap_asset asset = lookup (to_upper asset) swap_asset_decimals

-- `BigInt(s)`, on a string of decimal digits; the empty string is 0n. The signs, spaces and
-- prefixes that `BigInt` also reads are refused here: `decimalString` lets none of them through.
unfoldable pub big_int_from : ℕ → Text → Option ℕ
big_int_from acc [] = some acc
big_int_from acc (c ∷ s) =
    let rest = big_int_from (acc * 10 + (c - 48)) s in if is_digit c then rest else none

unfoldable pub big_int : Text → Option ℕ
unfolding big_int_from
big_int s = big_int_from 0 s

-- `s.split(sep)[0]`, and `s.split(sep)[1]`, which is missing if `sep` does not occur.
unfoldable pub before : ℕ → Text → Text
before sep [] = []
before sep (c ∷ s) = if c == sep then [] else c ∷ before sep s

unfoldable pub after : ℕ → Text → Option Text
after sep [] = none
after sep (c ∷ s) = if c == sep then some s else after sep s

-- `(parts[1] ?? "").padEnd(n, "0").slice(0, n)`
unfoldable pub pad_end : ℕ → Text → Text
pad_end n s = s ++ replicate (n - length s) b'0'

unfoldable pub second_part : Option Text → Text
second_part none = []
second_part (some s) = before b'.' s

unfoldable pub fraction : ℕ → Text → Text
unfolding after before pad_end second_part
fraction decimals amount = take decimals (pad_end decimals (second_part (after b'.' amount)))

abbrev scaled : ℕ → Option ℕ → Option ℕ → Option ℕ
scaled unit none f = none
scaled unit (some w) none = none
scaled unit (some w) (some f) = some (w * unit + f)

unfoldable pub parse_amount : Text → ℕ → Option ℕ
unfolding big_int before fraction
parse_amount amount decimals =
    scaled (10 ^ decimals) (big_int (before b'.' amount)) (big_int (fraction decimals amount))
