-- ===== src/Execution/Swap/Steps.antt =====
-- Each numbered step of `checkSwapEnvelope`: what it establishes when it passes, and when it passes.
use cryptokorr.Common.{
  ℕ, ◌<◌, Text, codes, text_eq_iff, to_lower, nonempty, or_else, leb, ◌==◌, ◌≡◌, refl, ◌⊎◌, ◌↔◌,
  Bool, true, false, not, Option, none, some, List, [], ◌∷◌, arith,
}
use cryptokorr.Config.Assets.{parse_amount}
use cryptokorr.Contracts.Dispatch.{SwapRoute, DispatchSwap}
use cryptokorr.Execution.Swap.Envelope.{
  Checked, passed, refused, ◌>>=◌, ◌>>◌, require, require_some, is_defined, truthy,
  is_supported_provider, check_provider, missing_if, missing_fields, check_missing, check_deadline,
  check_amount, check_value,
}
use cryptokorr.Execution.Swap.Requirement.{Present, IsFresh, IsComplete}

pub >>=-eq-passed :
    {A B : Type 0} (m : Checked A) (f : A → Checked B) {b : B}
    → (m >>= f) ≡ passed b
    → (a : A) × (m ≡ passed a) × (f a ≡ passed b)
>>=-eq-passed (passed a) f h = (a, refl, h)
>>=-eq-passed (refused reason) f h = cc

pub require-eq-passed :
    (b : Bool) (reason : Text) {u : Unit {0}} → require b reason ≡ passed u → b ≡ true
require-eq-passed true reason h = refl
require-eq-passed false reason h = cc

pub require_some-eq-passed :
    {A : Type 0} (o : Option A) (reason : Text) {a : A}
    → require_some o reason ≡ passed a
    → o ≡ some a
require_some-eq-passed none reason h = cc
require_some-eq-passed (some a) reason h = cc

pub truthy_iff : (o : Option Text) → truthy o ≡ true → Present o (or_else o [])
unfolding truthy
truthy_iff none h = cc
truthy_iff (some s) h = (refl, h)

pub is_supported_provider_sound :
    (s : Text) → is_supported_provider s ≡ true → (s ≡ codes "zerox") ⊎ (s ≡ codes "0x")
unfolding is_supported_provider
is_supported_provider_sound s h =
    ground (arith, text_eq_iff s (codes "zerox"), text_eq_iff s (codes "0x"))

pub check_provider_sound :
    (route : SwapRoute) {u : Unit {0}}
    → check_provider route ≡ passed u
    → (p : Text) × (route.route_provider ≡ some p)
      × ((to_lower p ≡ codes "zerox") ⊎ (to_lower p ≡ codes "0x"))
unfolding check_provider
check_provider_sound route h =
    let (u, there, rest) = >>=-eq-passed (require (truthy route.route_provider) _) _ h in
    let (same, full) = truthy_iff route.route_provider (require-eq-passed _ _ there) in
    (
      or_else route.route_provider [],
      same,
      is_supported_provider_sound _ (require-eq-passed _ _ rest),
    )

pub missing_if-eq-nil :
    (b : Bool) (f : Text) (fs : List Text) → missing_if b f fs ≡ [] → (b ≡ true) × (fs ≡ [])
missing_if-eq-nil true f fs h = (refl, h)
missing_if-eq-nil false f fs h = cc

pub check_missing-eq-passed :
    (fs : List Text) {u : Unit {0}} → check_missing fs ≡ passed u → fs ≡ []
unfolding check_missing
check_missing-eq-passed [] h = refl
check_missing-eq-passed (f ∷ fs) h = cc

pub missing_fields_iff : (route : SwapRoute) → (missing_fields route ≡ []) ↔ IsComplete route
unfolding missing_fields
missing_fields_iff route = (
  λ h.
      let (target, h1) = missing_if-eq-nil _ _ _ h in
      let (calldata, h2) = missing_if-eq-nil _ _ _ h1 in
      let (spender, h3) = missing_if-eq-nil _ _ _ h2 in
      let (source, h4) = missing_if-eq-nil _ _ _ h3 in
      let (destination, h5) = missing_if-eq-nil _ _ _ h4 in
      let (value, h6) = missing_if-eq-nil _ _ _ h5 in
      let (minimum_output, h7) = missing_if-eq-nil _ _ _ h6 in
      record {
        target = target;
        calldata = calldata;
        spender = spender;
        source = source;
        destination = destination;
        value = value;
        minimum_output = minimum_output;
      },
  λ c. rw (c.target, c.calldata, c.spender, c.source, c.destination, c.value, c.minimum_output),
)

pub check_deadline_sound :
    (date_parse : Text → Option ℕ) (deadline : Option Text) (now : ℕ) {u : Unit {0}}
    → check_deadline date_parse deadline now ≡ passed u
    → IsFresh date_parse deadline now
unfolding check_deadline
check_deadline_sound date_parse none now h = tt
check_deadline_sound date_parse (some []) now h = tt
check_deadline_sound date_parse (some (c ∷ s)) now h =
    let (ms, parsed, late) = >>=-eq-passed (require_some (date_parse (c ∷ s)) _) _ h in
    (ms, require_some-eq-passed _ _ parsed, ground (arith, require-eq-passed _ _ late))

pub check_deadline_complete :
    (date_parse : Text → Option ℕ) (deadline : Option Text) (now : ℕ)
    → IsFresh date_parse deadline now
    → check_deadline date_parse deadline now ≡ passed tt
unfolding check_deadline
check_deadline_complete date_parse none now h = refl
check_deadline_complete date_parse (some []) now h = refl
check_deadline_complete date_parse (some (c ∷ s)) now (ms, parsed, late) = rw parsed (ground arith)

pub require_positive :
    (n m : ℕ) (reason : Text)
    → (require (not (leb n 0)) reason >> passed n) ≡ passed m
    → (n ≡ m) × (0 < n)
require_positive n m reason h = ground arith

pub check_amount_iff :
    (d : DispatchSwap) (decimals n : ℕ)
    → (check_amount d decimals ≡ passed n)
      ↔ ((parse_amount d.input_amount decimals ≡ some n) × (0 < n))
unfolding check_amount
check_amount_iff d decimals n = (
  λ h.
      let (m, parsed, rest) =
        >>=-eq-passed (require_some (parse_amount d.input_amount decimals) _) _ h in
      let (same, positive) = require_positive m n _ rest in
      (rw (← same) (require_some-eq-passed _ _ parsed), rw (← same) positive),
  λ (parsed, positive). rw parsed (ground arith),
)

pub require_zero :
    (n m : ℕ) (reason : Text) → (require (n == 0) reason >> passed n) ≡ passed m → (n ≡ 0) × (m ≡ 0)
require_zero n m reason h = ground arith

pub check_value_sound :
    (route : SwapRoute) (n : ℕ)
    → check_value route ≡ passed n
    → (parse_amount (or_else route.value []) 18 ≡ some 0) × (n ≡ 0)
unfolding check_value
check_value_sound route n h =
    let (m, parsed, rest) =
      >>=-eq-passed (require_some (parse_amount (or_else route.value []) 18) _) _ h in
    let (zero, same) = require_zero m n _ rest in
    (rw (← zero) (require_some-eq-passed _ _ parsed), same)

pub is_defined_iff : (o : Option Text) → is_defined o ≡ true → o ≡ some (or_else o [])
is_defined_iff none h = cc
is_defined_iff (some s) h = refl

-- Inversion, step by step: what is left is to be proved from the step's success.
pub inverted :
    {A B C : Type 0} (m : Checked A) (f : A → Checked B) {b : B}
    → (m >>= f) ≡ passed b
    → ((a : A) → m ≡ passed a → f a ≡ passed b → C)
    → C
inverted m f h k = let (a, e, e') = >>=-eq-passed m f h in k a e e'

pub truthy-Present : (o : Option Text) (s : Text) → Present o s → truthy o ≡ true
unfolding truthy
truthy-Present o s p = rw p.0 p.1

pub or_else-Present : (o : Option Text) (s : Text) → o ≡ some s → or_else o [] ≡ s
or_else-Present o s p = rw p

pub supported_nonempty :
    (p : Text) → (to_lower p ≡ codes "zerox") ⊎ (to_lower p ≡ codes "0x") → nonempty p ≡ true
unfolding to_lower
supported_nonempty [] h = ground arith
supported_nonempty (c ∷ s) h = refl

pub check_provider_complete :
    (route : SwapRoute) (p : Text)
    → truthy route.route_provider ≡ true
    → route.route_provider ≡ some p
    → (to_lower p ≡ codes "zerox") ⊎ (to_lower p ≡ codes "0x")
    → check_provider route ≡ passed tt
unfolding check_provider is_supported_provider
check_provider_complete route p there e known =
    rw (there, or_else-Present route.route_provider p e)
      (ground
        (arith, text_eq_iff (to_lower p) (codes "zerox"), text_eq_iff (to_lower p) (codes "0x")))

pub check_value_complete :
    (route : SwapRoute)
    → parse_amount (or_else route.value []) 18 ≡ some 0
    → check_value route ≡ passed 0
unfolding check_value
check_value_complete route e = rw e

pub bound :
    {A B : Type 0} (m : Checked A) (f : A → Checked B) (a : A) {b : B}
    → m ≡ passed a
    → f a ≡ passed b
    → (m >>= f) ≡ passed b
bound m f a e e' = rw e e'

pub check_missing-nil : check_missing [] ≡ passed tt
unfolding check_missing
check_missing-nil = refl
