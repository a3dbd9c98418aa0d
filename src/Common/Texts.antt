-- ===== src/Common/Texts.antt =====
-- JavaScript strings as lists of code units. `codes` turns a literal of the source into one.
-- Case conversion is modelled on ASCII, which is all that the adapter compares.
use Prim.Native.Nat.{ℕ, zero, suc, ◌+◌, ◌-◌, ◌/◌, ◌%◌}
use Prim.Native.Char.{code}
use Prim.Native.String.{String}
use mathlib.Core.Path.{◌≡◌, refl, ap₂}
use mathlib.Core.Logic.{◌↔◌}
use mathlib.Core.Bool.{Bool, true, false, ◌&&◌, ◌||◌}
use mathlib.Core.List.{List, [], ◌∷◌, map}
use native.Mathlib.Omega.{arith}
use cryptokorr.Common.Core.{leb, ◌==◌, if◌then◌else◌, &&-eq-true}

abbrev pub Text : Type 0
Text = List ℕ

abbrev pub codes : String → Text
codes String.[] = []
codes (String.◌∷◌ c s) = code c ∷ codes s

-- `a === b` on strings.
unfoldable pub text_eq : Text → Text → Bool
text_eq [] [] = true
text_eq [] (d ∷ t) = false
text_eq (c ∷ s) [] = false
text_eq (c ∷ s) (d ∷ t) = (c == d) && text_eq s t

pub text_eq_refl : (s : Text) → text_eq s s ≡ true
unfolding text_eq
text_eq_refl [] = refl
text_eq_refl (c ∷ s) = ground (arith, text_eq_refl s)

pub text_eq_sound : (s t : Text) → text_eq s t ≡ true → s ≡ t
unfolding text_eq
text_eq_sound [] [] h = refl
text_eq_sound [] (d ∷ t) h = ground arith
text_eq_sound (c ∷ s) [] h = ground arith
text_eq_sound (c ∷ s) (d ∷ t) h =
    let (same, rest) = &&-eq-true (c == d) (text_eq s t) h in
    ap₂ ◌∷◌ (ground arith) (text_eq_sound s t rest)

-- `z.string().min(1)`, and the truthiness of a string.
abbrev pub nonempty : Text → Bool
nonempty [] = false
nonempty (c ∷ s) = true

abbrev pub is_digit : ℕ → Bool
is_digit c = leb b'0' c && leb c b'9'

abbrev pub is_upper : ℕ → Bool
is_upper c = leb b'A' c && leb c b'Z'

abbrev pub is_lower : ℕ → Bool
is_lower c = leb b'a' c && leb c b'z'

unfoldable pub lower_code : ℕ → ℕ
lower_code c = if is_upper c then c + 32 else c

unfoldable pub upper_code : ℕ → ℕ
upper_code c = if is_lower c then c - 32 else c

-- `s.toLowerCase()` and `s.toUpperCase()`.
unfoldable pub to_lower : Text → Text
unfolding lower_code
to_lower s = map lower_code s

unfoldable pub to_upper : Text → Text
unfolding upper_code
to_upper s = map upper_code s

lower_code_idem : (c : ℕ) → lower_code (lower_code c) ≡ lower_code c
unfolding lower_code
lower_code_idem c = ground arith

map-lower_code_idem : (s : Text) → map lower_code (map lower_code s) ≡ map lower_code s
map-lower_code_idem [] = refl
map-lower_code_idem (c ∷ s) = ap₂ ◌∷◌ (lower_code_idem c) (map-lower_code_idem s)

pub to_lower_idem : (s : Text) → to_lower (to_lower s) ≡ to_lower s
unfolding to_lower
to_lower_idem s = map-lower_code_idem s

pub text_eq_iff : (s t : Text) → (text_eq s t ≡ true) ↔ (s ≡ t)
text_eq_iff s t = (text_eq_sound s t, λ e. rw e (text_eq_refl t))

-- `s.startsWith(p)` and `s.includes(p)`.
unfoldable pub begins_with : Text → Text → Bool
begins_with [] s = true
begins_with (c ∷ p) [] = false
begins_with (c ∷ p) (d ∷ s) = (c == d) && begins_with p s

unfoldable pub contains : Text → Text → Bool
unfolding begins_with
contains p [] = begins_with p []
contains p (c ∷ s) = begins_with p (c ∷ s) || contains p s

-- Digits of a number in a base, most significant first; `fuel` rounds.
abbrev digit_code : ℕ → ℕ
digit_code d = if leb d 9 then d + 48 else d + 87

digits_fuel : ℕ → ℕ → ℕ → Text → Text
digits_fuel zero base n acc = acc
digits_fuel (suc fuel) base n acc =
    let rest = digits_fuel fuel base (n / base) (digit_code (n % base) ∷ acc) in
    if leb base n then rest else digit_code n ∷ acc

-- `n.toString(base)` of a bigint or an integer number, for base 10 and 16.
unfoldable pub to_string : ℕ → ℕ → Text
unfolding digits_fuel
to_string base n = digits_fuel (suc n) base n []
