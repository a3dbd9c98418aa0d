-- ===== src/Tests/Access.antt =====
-- chain_adapter/src/app.ts and config/index.ts: a request with the secret, and an operator's pair.
use cryptokorr.Common.{
  Text, codes, text_eq, to_lower, nonempty, replicate, ◌≡◌, refl, ◌↔◌, true, false, none, some, [],
  ◌∷◌, ◌==◌, if◌then◌else◌, ◌++◌,
}
use cryptokorr.Auth.{invalid_authorization_scheme, verify_dispatch_auth}
use cryptokorr.Auth.Bearer.{verify_dispatch_auth_iff}
use cryptokorr.Config.Operator.{
  Keys, absent, operator, invalid, half_set, underivable_key, is_placeholder, is_key,
  refuse_conflation, read_operator_signer,
}
use cryptokorr.Config.Operator.Separation.{IsOperator, read_operator_signer_iff}

basic_scheme :
    verify_dispatch_auth (λ s. s) (codes "s3cret") (some (codes "Basic s3cret"))
    ≡ some invalid_authorization_scheme
unfolding verify_dispatch_auth text_eq
basic_scheme = refl

verify_dispatch_auth_iff_example :
    (verify_dispatch_auth (λ s. s) (codes "s3cret") (some (codes "Bearer s3cret")) ≡ none) ↔ (
      (nonempty (codes "s3cret") ≡ true)
      × (some (codes "Bearer s3cret") ≡ some (codes "Bearer " ++ codes "s3cret")))
verify_dispatch_auth_iff_example =
    verify_dispatch_auth_iff (λ s. s) (codes "s3cret") (λ token e. e) (some (codes "Bearer s3cret"))

-- Addresses are the keys themselves.
abbrev keys : Keys
keys = record {
  is_hex = λ s. true;
  is_address = λ s. true;
  get_address = λ s. s;
  address_of = λ s. some s;
}

abbrev key : Text
key = replicate 66 b'7'

key_accepted : read_operator_signer keys (some key) (some key) (codes "dev") ≡ operator key key
unfolding read_operator_signer is_placeholder is_key refuse_conflation to_lower text_eq
key_accepted = refl

key_alone : read_operator_signer keys (some key) none (codes "dev") ≡ invalid half_set
unfolding read_operator_signer
key_alone = refl

-- Keys of which those that begin with an `f` are outside the order of the curve.
abbrev curve_keys : Keys
curve_keys = record {
  is_hex = λ s. true;
  is_address = λ s. true;
  get_address = λ s. s;
  address_of = λ s. elim s [ [] ↦ none | c ∷ t ↦ if c == b'f' then none else some (c ∷ t) ];
}

session_key_off_curve :
    read_operator_signer curve_keys (some key) (some key) (replicate 66 b'f')
    ≡ invalid underivable_key
unfolding read_operator_signer is_placeholder to_lower text_eq
session_key_off_curve = refl

read_operator_signer_iff_example :
    ((k a : Text)
      → (read_operator_signer keys (some key) (some key) (codes "dev") ≡ operator k a)
        ↔ IsOperator keys key key (codes "dev") k a)
    × (read_operator_signer keys (some key) (some key) (codes "dev") ≡ absent
        → (nonempty key ≡ false) × (nonempty key ≡ false))
read_operator_signer_iff_example = read_operator_signer_iff keys (some key) (some key) (codes "dev")
