-- ===== src/Tests/Amounts.antt =====
-- Amounts: concrete conversions.
use cryptokorr.Common.{
  ℕ, ◌≤◌, ◌<◌, ◌*◌, ◌+◌, ◌^◌, codes, text_eq, to_upper, ◌≡◌, refl, some, ◌++◌, ◌∷◌, length,
}
use cryptokorr.Config.Assets.{parse_amount, decimals_for_swap_asset}
use cryptokorr.Config.Assets.Amount.{
  digits_value, with_point, parse_amount-floor, parse_amount-surplus,
}
use cryptokorr.Contracts.Primitives.{decimal_string}
use cryptokorr.Contracts.Amounts.{decimal_string-parse_amount}

fifty_usdc : parse_amount (codes "50") 6 ≡ some 50000000
unfolding parse_amount
fifty_usdc = refl

below_one_unit : parse_amount (codes "0.0000009") 6 ≡ some 0
unfolding parse_amount
below_one_unit = refl

weth_decimals : decimals_for_swap_asset (codes "weth") ≡ some 18
unfolding decimals_for_swap_asset text_eq to_upper
weth_decimals = refl

parse_amount-floor_example :
    (units : ℕ) × (parse_amount (codes "1" ++ b'.' ∷ codes "2345678") 6 ≡ some units)
    × (units * 10 ^ length (codes "2345678")
        ≤ digits_value 0 (codes "1" ++ codes "2345678") * 10 ^ 6)
    × (digits_value 0 (codes "1" ++ codes "2345678") * 10 ^ 6
        < (units + 1) * 10 ^ length (codes "2345678"))
parse_amount-floor_example =
    parse_amount-floor 6 (codes "1" ++ b'.' ∷ codes "2345678") (codes "1") (codes "2345678")
      (with_point (codes "1") (codes "2345678") refl refl)

parse_amount-surplus_example :
    parse_amount (codes "1" ++ b'.' ∷ (codes "234567" ++ codes "89")) 6
    ≡ parse_amount (codes "1" ++ b'.' ∷ codes "234567") 6
parse_amount-surplus_example =
    parse_amount-surplus 6 (codes "1") (codes "234567") (codes "89") refl refl refl refl

decimal_string-parse_amount_example : (units : ℕ) × (parse_amount (codes "1.25") 6 ≡ some units)
decimal_string-parse_amount_example =
    decimal_string-parse_amount (codes "1.25") 6 (unfold decimal_string in refl)
