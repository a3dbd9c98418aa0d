-- ===== src/Config/Operator.antt =====
-- chain_adapter/src/config/index.ts: `readOperatorSigner`, which keeps the kernel's root key apart from
-- the session key. viem's functions are `Keys`; the process environment is its two variables.
pub mod Separation
use cryptokorr.Common.{
  begins_with, contains, ℕ, ◌==◌, Text, codes, text_eq, to_lower, nonempty, length, or_else, not,
  Bool, true, false, ◌||◌, ◌&&◌, Option, none, some, List, [], ◌∷◌, if◌then◌else◌,
}

-- `isHex`, `isAddress`, `getAddress`, and the address of `privateKeyToAccount`, which throws (`none`)
-- on a text that is no private key, as on 32 bytes outside the order of the curve.
pub record Keys : Type 0 where
  pub is_hex : Text → Bool
  pub is_address : Text → Bool
  pub get_address : Text → Text
  pub address_of : Text → Option Text

pub data ConfigError : Type 0 where
  half_set placeholder_value malformed_key malformed_address address_mismatch role_conflation
        underivable_key :
      ConfigError

-- `{}`, the pair, or an error.
pub data OperatorSigner : Type 0 where
  absent : OperatorSigner
  operator : Text → Text → OperatorSigner
  invalid : ConfigError → OperatorSigner

-- `/placeholder|0x_/i`
unfoldable pub is_placeholder : Text → Bool
unfolding contains
is_placeholder s =
    contains (codes "placeholder") (to_lower s) || contains (codes "0x_") (to_lower s)

abbrev pub or_invalid : Bool → ConfigError → OperatorSigner → OperatorSigner
or_invalid true e s = s
or_invalid false e s = invalid e

-- Which of the two variables are set.
abbrev pub by_presence : Bool → Bool → OperatorSigner → OperatorSigner
by_presence false false s = absent
by_presence true false s = invalid half_set
by_presence false true s = invalid half_set
by_presence true true s = s

module _ (keys : Keys) where
  unfoldable pub is_key : Text → Bool
  is_key key = keys.is_hex key && length key == 66

  -- The last check, once the address of the session key is derived.
  abbrev pub keep_apart : Option Text → Text → Text → OperatorSigner
  keep_apart none key address = invalid underivable_key
  keep_apart (some delegation_derived) key address =
      or_invalid (not (text_eq delegation_derived address)) role_conflation (operator key address)

  -- That check is skipped while the session key is not yet a key.
  unfoldable pub refuse_conflation : Text → Text → Text → OperatorSigner
  unfolding is_key
  refuse_conflation delegation_signer_key key address =
      if is_key delegation_signer_key
      then keep_apart (keys.address_of delegation_signer_key) key address
      else operator key address

  abbrev pub check_derived : Option Text → Text → Text → Text → OperatorSigner
  check_derived none delegation_signer_key key address = invalid underivable_key
  check_derived (some derived) delegation_signer_key key address =
      or_invalid (text_eq derived address) address_mismatch
        (refuse_conflation delegation_signer_key key address)

  unfoldable pub validate_operator : Text → Text → Text → OperatorSigner
  unfolding is_key refuse_conflation
  validate_operator raw_key raw_address delegation_signer_key =
      or_invalid (not (is_placeholder raw_key || is_placeholder raw_address)) placeholder_value (
        or_invalid (is_key raw_key) malformed_key (
          or_invalid (keys.is_address raw_address) malformed_address (
            check_derived (keys.address_of raw_key) delegation_signer_key raw_key
              (keys.get_address raw_address))))

  unfoldable pub read_operator_signer : Option Text → Option Text → Text → OperatorSigner
  unfolding validate_operator
  read_operator_signer raw_key raw_address delegation_signer_key =
      by_presence (nonempty (or_else raw_key [])) (nonempty (or_else raw_address []))
        (validate_operator (or_else raw_key []) (or_else raw_address []) delegation_signer_key)
