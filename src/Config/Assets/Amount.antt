-- ===== src/Config/Assets/Amount.antt =====
-- What `parseAmount` returns on the strings that `decimalString` lets through.
use cryptokorr.Common.{
  ℕ, zero, suc, ◌+◌, ◌-◌, ◌*◌, ◌^◌, ◌≤◌, ◌<◌, ◌≡◌, ◌∙◌, sym, refl, ap, Text, is_digit, true, all,
  none, some, [], ◌∷◌, ◌++◌, arith, length, take, replicate, &&-eq-true,
}
use cryptokorr.Config.Assets.{
  big_int_from, before, after, pad_end, second_part, fraction, parse_amount,
}
use native.Mathlib.Nat.{pow-suc}

-- The number that a string of digits stands for, read from the left.
abbrev pub digits_value : ℕ → Text → ℕ
digits_value acc [] = acc
digits_value acc (c ∷ s) = digits_value (acc * 10 + (c - 48)) s

pub big_int_from-digits :
    (acc : ℕ) (s : Text) → all is_digit s ≡ true → big_int_from acc s ≡ some (digits_value acc s)
unfolding big_int_from
big_int_from-digits acc [] h = refl
big_int_from-digits acc (c ∷ s) h =
    let (here, there) = &&-eq-true (is_digit c) (all is_digit s) h in
    rw here (big_int_from-digits (acc * 10 + (c - 48)) s there)

before-all_digits : (w rest : Text) → all is_digit w ≡ true → before b'.' (w ++ b'.' ∷ rest) ≡ w
unfolding before
before-all_digits [] rest h = refl
before-all_digits (c ∷ s) rest h = ground (arith, before-all_digits s rest)

pub before-no_dot : (w : Text) → all is_digit w ≡ true → before b'.' w ≡ w
unfolding before
before-no_dot [] h = refl
before-no_dot (c ∷ s) h = ground (arith, before-no_dot s)

after-all_digits :
    (w rest : Text) → all is_digit w ≡ true → after b'.' (w ++ b'.' ∷ rest) ≡ some rest
unfolding after
after-all_digits [] rest h = refl
after-all_digits (c ∷ s) rest h = ground (arith, after-all_digits s rest)

after-no_dot : (w : Text) → all is_digit w ≡ true → after b'.' w ≡ none
unfolding after
after-no_dot [] h = refl
after-no_dot (c ∷ s) h = ground (arith, after-no_dot s)

shift_digit :
    (acc d unit low whole tens : ℕ)
    → tens ≡ unit * 10
    → whole ≡ (0 * 10 + d) * unit + low
    → (acc * 10 + d) * unit + low ≡ acc * tens + whole
shift_digit acc d unit low whole tens e f = rw (e, f) (omega arith)

-- The digits are read base ten, whatever stands before them.
digits_value-acc :
    (acc : ℕ) (s : Text) → digits_value acc s ≡ acc * 10 ^ length s + digits_value 0 s
digits_value-acc acc [] = omega arith
digits_value-acc acc (c ∷ s) =
    digits_value-acc (acc * 10 + (c - 48)) s
    ∙ shift_digit acc (c - 48) (10 ^ length s) (digits_value 0 s) (digits_value 0 (c ∷ s))
        (10 ^ suc (length s)) (pow-suc 10 (length s)) (digits_value-acc (0 * 10 + (c - 48)) s)

digits_value-cons :
    (c : ℕ) (s : Text) → digits_value 0 (c ∷ s) ≡ (c - 48) * 10 ^ length s + digits_value 0 s
digits_value-cons c s =
    digits_value-acc (0 * 10 + (c - 48)) s
    ∙ ap (λ (d : ℕ). d * 10 ^ length s + digits_value 0 s) (omega arith)

digits_value-append :
    (acc : ℕ) (s t : Text)
    → digits_value acc (s ++ t) ≡ digits_value acc s * 10 ^ length t + digits_value 0 t
digits_value-append acc [] t = digits_value-acc acc t
digits_value-append acc (c ∷ s) t = digits_value-append (acc * 10 + (c - 48)) s t

digits_value-lt : (s : Text) → all is_digit s ≡ true → digits_value 0 s < 10 ^ length s
digits_value-lt [] h = omega arith
digits_value-lt (c ∷ s) h =
    let (here, there) = &&-eq-true (is_digit c) (all is_digit s) h in
    let bound : c - 48 ≤ 9 = ground arith in
    let ih = digits_value-lt s there in
    rw (digits_value-cons c s) (grind (arith, pow-suc 10 (length s)))

-- `n` digits of `s`, with zeros where it is too short.
abbrev pub fit : ℕ → Text → Text
fit zero s = []
fit (suc n) [] = b'0' ∷ fit n []
fit (suc n) (c ∷ s) = c ∷ fit n s

fit-replicate : (n k : ℕ) → k ≡ n → take n (replicate k b'0') ≡ fit n []
fit-replicate zero k e = refl
fit-replicate (suc n) zero e = absurd (omega arith)
fit-replicate (suc n) (suc k) e = ap (◌∷◌ b'0') (fit-replicate n k (omega arith))

pub fit-pad : (n k : ℕ) (s : Text) → k ≡ n - length s → take n (s ++ replicate k b'0') ≡ fit n s
fit-pad n k [] e = fit-replicate n k (omega arith)
fit-pad zero k (c ∷ s) e = refl
fit-pad (suc n) k (c ∷ s) e = ap (◌∷◌ c) (fit-pad n k s (omega arith))

length-fit : (n : ℕ) (s : Text) → length (fit n s) ≡ n
length-fit zero s = refl
length-fit (suc n) [] = ap suc (length-fit n [])
length-fit (suc n) (c ∷ s) = ap suc (length-fit n s)

floor_step :
    (d unit scale low kept : ℕ)
    → kept * unit ≤ low * scale
    → (d * scale + kept) * (unit * 10) ≤ (d * unit + low) * (scale * 10)
floor_step d unit scale low kept h = omega arith

floor_step_lt :
    (d unit scale low kept : ℕ)
    → low * scale < (kept + 1) * unit
    → (d * unit + low) * (scale * 10) < (d * scale + kept + 1) * (unit * 10)
floor_step_lt d unit scale low kept h = omega arith

-- The first `n` decimals are the number of units below the fraction, rounded down.
fit_floor :
    (n : ℕ) (s : Text)
    → (digits_value 0 (fit n s) * 10 ^ length s ≤ digits_value 0 s * 10 ^ n)
      × (all is_digit s ≡ true
          → digits_value 0 s * 10 ^ n < (digits_value 0 (fit n s) + 1) * 10 ^ length s)
fit_floor zero s = (omega arith, λ d. omega (arith, digits_value-lt s d))
fit_floor (suc n) [] =
    let (low, high) = fit_floor n [] in let top = high refl in (omega arith, λ _. omega arith)
fit_floor (suc n) (c ∷ s) =
    let (low, high) = fit_floor n s in
    let same = digits_value-cons c s in
    let kept =
      digits_value-cons c (fit n s)
      ∙ ap (λ (k : ℕ). (c - 48) * 10 ^ k + digits_value 0 (fit n s)) (length-fit n s) in
    (
      rw (kept, same, pow-suc, pow-suc) (floor_step (c - 48) (10 ^ length s) (10 ^ n) _ _ low),
      λ d.
          rw (kept, same, pow-suc, pow-suc)
            (floor_step_lt (c - 48) (10 ^ length s) (10 ^ n) _ _
              (high (&&-eq-true (is_digit c) (all is_digit s) d).1)),
    )

pub fit-all_digits : (n : ℕ) (s : Text) → all is_digit s ≡ true → all is_digit (fit n s) ≡ true
fit-all_digits zero s h = refl
fit-all_digits (suc n) [] h = fit-all_digits n [] refl
fit-all_digits (suc n) (c ∷ s) h = ground (arith, fit-all_digits n s)

fraction-dot :
    (n : ℕ) (w f : Text)
    → all is_digit w ≡ true
    → all is_digit f ≡ true
    → fraction n (w ++ b'.' ∷ f) ≡ fit n f
unfolding fraction second_part pad_end
fraction-dot n w f hw hf =
    rw (after-all_digits w f hw, before-no_dot f hf) (fit-pad n (n - length f) f refl)

parse_amount-dot :
    (n : ℕ) (w f : Text)
    → all is_digit w ≡ true
    → all is_digit f ≡ true
    → parse_amount (w ++ b'.' ∷ f) n ≡ some (digits_value 0 w * 10 ^ n + digits_value 0 (fit n f))
unfolding parse_amount
parse_amount-dot n w f hw hf = rw (
  before-all_digits w f hw,
  fraction-dot n w f hw hf,
  big_int_from-digits 0 w hw,
  big_int_from-digits 0 (fit n f) (fit-all_digits n f hf),
)

fraction-no_dot : (n : ℕ) (w : Text) → all is_digit w ≡ true → fraction n w ≡ fit n []
unfolding fraction second_part pad_end
fraction-no_dot n w hw = rw (after-no_dot w hw) (fit-pad n (n - 0) [] refl)

parse_amount-no_dot :
    (n : ℕ) (w : Text)
    → all is_digit w ≡ true
    → parse_amount w n ≡ some (digits_value 0 w * 10 ^ n + digits_value 0 (fit n []))
unfolding parse_amount
parse_amount-no_dot n w hw = rw (
  before-no_dot w hw,
  fraction-no_dot n w hw,
  big_int_from-digits 0 w hw,
  big_int_from-digits 0 (fit n []) (fit-all_digits n [] refl),
)

-- A decimal string with its digits before and after the point, if it has one.
pub data IsDecimal : Text → Text → Text → Type 0 where
  without_point : (w : Text) → all is_digit w ≡ true → IsDecimal w w []
  with_point :
      (w f : Text) → all is_digit w ≡ true → all is_digit f ≡ true → IsDecimal (w ++ b'.' ∷ f) w f

parse_amount-IsDecimal :
    (n : ℕ) (s w f : Text)
    → IsDecimal s w f
    → (parse_amount s n ≡ some (digits_value 0 w * 10 ^ n + digits_value 0 (fit n f)))
      × (all is_digit f ≡ true)
parse_amount-IsDecimal n s w f (without_point v hw) = (parse_amount-no_dot n v hw, refl)
parse_amount-IsDecimal n s w f (with_point v g hw hf) = (parse_amount-dot n v g hw hf, hf)

floor_whole :
    (w unit scale low kept : ℕ)
    → kept * unit ≤ low * scale
    → (w * scale + kept) * unit ≤ (w * unit + low) * scale
floor_whole w unit scale low kept h = omega arith

floor_whole_lt :
    (w unit scale low kept : ℕ)
    → low * scale < (kept + 1) * unit
    → (w * unit + low) * scale < (w * scale + kept + 1) * unit
floor_whole_lt w unit scale low kept h = omega arith

-- On a decimal string, with a point or without, whose digits together are the number `v`, of which
-- `length f` stand after the point, `parse_amount` returns the number of base units in
-- `v / 10 ^ length f`, rounded down.
pub parse_amount-floor :
    (n : ℕ) (s w f : Text)
    → IsDecimal s w f
    → (units : ℕ) × (parse_amount s n ≡ some units)
      × (units * 10 ^ length f ≤ digits_value 0 (w ++ f) * 10 ^ n)
      × (digits_value 0 (w ++ f) * 10 ^ n < (units + 1) * 10 ^ length f)
parse_amount-floor n s w f d =
    let (low, high) = fit_floor n f in
    let (same, hf) = parse_amount-IsDecimal n s w f d in
    (
      digits_value 0 w * 10 ^ n + digits_value 0 (fit n f),
      same,
      rw (digits_value-append 0 w f)
          (floor_whole (digits_value 0 w) (10 ^ length f) (10 ^ n) _ _ low),
      rw (digits_value-append 0 w f)
          (floor_whole_lt (digits_value 0 w) (10 ^ length f) (10 ^ n) _ _ (high hf)),
    )

fit-surplus : (n : ℕ) (f extra : Text) → length f ≡ n → fit n (f ++ extra) ≡ fit n f
fit-surplus zero [] extra e = refl
fit-surplus zero (c ∷ f) extra e = absurd (omega arith)
fit-surplus (suc n) [] extra e = absurd (omega arith)
fit-surplus (suc n) (c ∷ f) extra e = ap (◌∷◌ c) (fit-surplus n f extra (omega arith))

all-append :
    (s t : Text) → all is_digit s ≡ true → all is_digit t ≡ true → all is_digit (s ++ t) ≡ true
all-append [] t h k = k
all-append (c ∷ s) t h k = ground (arith, all-append s t)

-- Digits past the asset's decimals are dropped in silence: the amount with them and the amount
-- without them come to the same base units.
pub parse_amount-surplus :
    (n : ℕ) (w f extra : Text)
    → all is_digit w ≡ true
    → all is_digit f ≡ true
    → all is_digit extra ≡ true
    → length f ≡ n
    → parse_amount (w ++ b'.' ∷ (f ++ extra)) n ≡ parse_amount (w ++ b'.' ∷ f) n
parse_amount-surplus n w f extra hw hf he e =
    parse_amount-dot n w (f ++ extra) hw (all-append f extra hf he)
    ∙ rw (fit-surplus n f extra e) (sym (parse_amount-dot n w f hw hf))
