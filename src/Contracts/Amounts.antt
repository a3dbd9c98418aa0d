-- ===== src/Contracts/Amounts.antt =====
-- The amounts that chain_adapter/src/contracts/schemas.ts lets through are those that `parseAmount`
-- of chain_adapter/src/config/assets.ts can read.
use cryptokorr.Common.{
  ℕ, ◌-◌, ◌*◌, ◌+◌, ◌^◌, Text, is_digit, nonempty, all, length, ◌≡◌, refl, true, Option, none, some,
  &&-eq-true,
}
use cryptokorr.Config.Assets.{before, after, second_part, pad_end, fraction, parse_amount}
use cryptokorr.Config.Assets.Amount.{
  digits_value, before-no_dot, big_int_from-digits, fit-pad, fit-all_digits,
}
use cryptokorr.Contracts.Primitives.{decimal_string, digits, optional_digits}

second_part-digits :
    (o : Option Text) → optional_digits o ≡ true → all is_digit (second_part o) ≡ true
unfolding second_part
second_part-digits none h = refl
second_part-digits (some s) h =
    let whole = (&&-eq-true (nonempty s) (all is_digit s) h).1 in rw (before-no_dot s whole) whole

fraction-digits :
    (n : ℕ) (s : Text) → optional_digits (after b'.' s) ≡ true → all is_digit (fraction n s) ≡ true
unfolding fraction pad_end
fraction-digits n s h =
    let tail = second_part (after b'.' s) in
    rw (fit-pad n (n - length tail) tail refl)
      (fit-all_digits n tail (second_part-digits (after b'.' s) h))

-- A string that `decimalString` accepts has an amount, whatever the asset's decimals.
pub decimal_string-parse_amount :
    (s : Text) (n : ℕ) → decimal_string s ≡ true → (units : ℕ) × (parse_amount s n ≡ some units)
unfolding decimal_string parse_amount
decimal_string-parse_amount s n h =
    let (whole, part) = &&-eq-true (digits (before b'.' s)) (optional_digits (after b'.' s)) h in
    let (full, figures) =
      &&-eq-true (nonempty (before b'.' s)) (all is_digit (before b'.' s)) whole in
    (
      digits_value 0 (before b'.' s) * 10 ^ n + digits_value 0 (fraction n s),
      rw (
        big_int_from-digits 0 (before b'.' s) figures,
        big_int_from-digits 0 (fraction n s) (fraction-digits n s part),
      ),
    )
