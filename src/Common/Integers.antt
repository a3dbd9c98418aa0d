-- ===== src/Common/Integers.antt =====
-- `Number.parseInt(s, 10)`, exact below 2^53.
use Prim.Native.Nat.{ℕ, zero, suc, ◌+◌, ◌*◌, ◌-◌}
use mathlib.Core.Option.{Option, none, some}
use mathlib.Core.List.{[], ◌∷◌}
use cryptokorr.Common.Core.{◌==◌, if◌then◌else◌}
use cryptokorr.Common.Texts.{Text, is_digit}
use cryptokorr.Common.Replace.{take_while, drop_while, is_space}

-- A natural number, or one with a minus sign, which may be -0.
pub data Integer : Type 0 where
  whole : ℕ → Integer
  minus : ℕ → Integer

-- The number of a run of digits.
unfoldable pub digits_value : ℕ → Text → ℕ
digits_value n [] = n
digits_value n (c ∷ s) = digits_value (n * 10 + (c - 48)) s

unfoldable pub leading_number : Text → Option ℕ
unfolding digits_value
leading_number s = elim (take_while is_digit s) [
  | [] ↦ none
  | c ∷ rest ↦ some (digits_value 0 (c ∷ rest))
]

abbrev signed_as : (ℕ → Integer) → Option ℕ → Option Integer
signed_as sign none = none
signed_as sign (some n) = some (sign n)

-- White space, a sign, digits, and whatever follows.
unfoldable pub parse_int : Text → Option Integer
unfolding leading_number
parse_int s = elim (drop_while is_space s) [
  | [] ↦ none
  | c ∷ rest ↦
      if c == b'+'
      then signed_as whole (leading_number rest)
      else if c == b'-'
      then signed_as minus (leading_number rest)
      else signed_as whole (leading_number (c ∷ rest))
]

-- The number, if it is `>= 0`.
abbrev pub not_negative : Option Integer → Option ℕ
not_negative none = none
not_negative (some (whole n)) = some n
not_negative (some (minus zero)) = some 0
not_negative (some (minus (suc n))) = none
