-- ===== src/Contracts/Primitives.antt =====
-- chain_adapter/src/contracts/schemas.ts: the shared primitives.
use cryptokorr.Common.{
  ℕ, Text, nonempty, is_digit, Bool, true, false, ◌&&◌, ◌||◌, all, leb, ◌==◌, if◌then◌else◌, Option,
  none, some, ◌∷◌, length,
}
use cryptokorr.Config.Assets.{before, after}

-- The two formats that zod implements.
pub record Zod : Type 0 where
  pub is_uuid : Text → Bool
  pub is_datetime : Text → Bool

abbrev pub is_hex_digit : ℕ → Bool
is_hex_digit c = is_digit c || ((leb b'a' c && leb c b'f') || (leb b'A' c && leb c b'F'))

-- What follows `0x`, if the text begins with it.
unfoldable pub after_0x : Text → Option Text
after_0x (z ∷ x ∷ s) = if z == b'0' && x == b'x' then some s else none
after_0x s = none

-- `/^0x[0-9a-fA-F]+$/`
unfoldable pub hex_address : Text → Bool
unfolding after_0x
hex_address s = elim (after_0x s) [ none ↦ false | some h ↦ nonempty h && all is_hex_digit h ]

-- `/^0x[0-9a-fA-F]{n}$/`
unfoldable pub hex_of_length : ℕ → Text → Bool
unfolding after_0x
hex_of_length n s = elim (after_0x s) [
  | none ↦ false
  | some h ↦ (length h == n) && all is_hex_digit h
]

abbrev pub digits : Text → Bool
digits s = nonempty s && all is_digit s

abbrev pub optional_digits : Option Text → Bool
optional_digits none = true
optional_digits (some s) = digits s

-- `/^\d+(\.\d+)?$/`
unfoldable pub decimal_string : Text → Bool
unfolding before after
decimal_string s = digits (before b'.' s) && optional_digits (after b'.' s)
