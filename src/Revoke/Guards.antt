-- ===== src/Revoke/Guards.antt =====
-- chain_adapter/src/chains/base/uninstall_validation.ts: the checks that precede a cryptographic
-- revoke, and the pin of permission_validator.ts that they compare with. `isHex`, `pad` and
-- `concatHex` are viem's, so fields of `HexTools`.
use cryptokorr.Common.{
  ℕ, ◌==◌, Text, codes, text_eq, to_lower, nonempty, length, any, or_else, Bool, ◌&&◌, Option, List,
  [], ◌∷◌, ◌++◌, if◌then◌else◌,
}
use cryptokorr.Contracts.Permission.{PermissionBlock}
use cryptokorr.Effect.{cryptographic, Action, pure, throw, ◌>>=◌, ◌>>◌}

-- viem: `isHex(s)`, `pad(s, { size, dir: "right" })` and `concatHex([s, t])`.
pub record HexTools : Type 0 where
  pub is_hex : Text → Bool
  pub pad_right : ℕ → Text → Text
  pub concat_hex : Text → Text → Text

pub data RevokeFailure : Type 0 where
  validation_id_mismatch package_version_mismatch session_signer_missing : RevokeFailure
  permission_deserialization_failed unaccepted_signer_module unaccepted_policy_module :
      RevokeFailure

unfoldable pub failure_code : RevokeFailure → Text
failure_code validation_id_mismatch = codes "validation_id_mismatch"
failure_code package_version_mismatch = codes "package_version_mismatch"
failure_code session_signer_missing = codes "session_signer_missing"
failure_code permission_deserialization_failed = codes "permission_deserialization_failed"
failure_code unaccepted_signer_module = codes "unaccepted_signer_module"
failure_code unaccepted_policy_module = codes "unaccepted_policy_module"

-- `throw new CryptographicRevokeError(code, message)`
unfoldable pub refuse : {A : Type 0} → RevokeFailure → Text → Action A
refuse failure message = throw (cryptographic (failure_code failure) message)

-- `if (!b) throw new CryptographicRevokeError(code, message)`
unfoldable pub assert : Bool → RevokeFailure → Text → Action (Unit {0})
assert b failure message = if b then pure tt else refuse failure message

abbrev pub validator_type_permission_prefix : Text
validator_type_permission_prefix = codes "0x02"

abbrev pub pinned_package_version : Text
pinned_package_version = codes "5.6.3"

abbrev pub accepted_signer_contracts : List Text
accepted_signer_contracts = codes "0x6A6F069E2a08c2468e7724Ab3250CdBFBA14D4FF" ∷ []

abbrev pub accepted_policy_contracts : List Text
accepted_policy_contracts =
    codes "0x85770b902D1e503D5f5141d9eaC16d0d08eEaDd2"
    ∷ codes "0xaeFC5AbC67FfD258abD0A3E54f65E70326F84b23"
    ∷ codes "0xf63d4139B25c836334edD76641356c6b74C86873"
    ∷ codes "0xF6A936c88D97E6fad13b98d2FD731Ff17eeD591d"
    ∷ codes "0x67b436caD8a6D025DF6C82C5BB43fbF11fC5B9B7"
    ∷ codes "0xB9f8f524bE6EcD8C945b1b87f9ae5C192FdCE20F"
    ∷ []

module _ (hex : HexTools) where
  unfoldable pub validation_id_of : Text → Text
  validation_id_of permission_id =
      hex.concat_hex validator_type_permission_prefix (hex.pad_right 20 permission_id)

  unfoldable pub derive_validation_id : Text → Action Text
  derive_validation_id permission_id =
      assert (hex.is_hex permission_id && length permission_id == 10) validation_id_mismatch
        (codes "permission_id must be 0x + 8 hex chars (4 bytes)")
      >> pure (validation_id_of permission_id)

  unfoldable pub assert_validation_id_consistent : PermissionBlock → Action (Unit {0})
  assert_validation_id_consistent block = do
    derived ← derive_validation_id block.permission_id
    assert (text_eq (to_lower derived) (to_lower block.validation_id)) validation_id_mismatch (
        codes "permission_id "
        ++ block.permission_id
        ++ codes " derives validation_id "
        ++ derived
        ++ codes ", dispatch claims "
        ++ block.validation_id)

unfoldable pub assert_package_version_pinned : PermissionBlock → Action (Unit {0})
assert_package_version_pinned block =
    assert (text_eq block.package_version pinned_package_version) package_version_mismatch (
      codes "permission.package_version "
      ++ block.package_version
      ++ codes " does not match adapter pin "
      ++ pinned_package_version)

-- `allowed.some((a) => a.toLowerCase() === lc)`
unfoldable pub is_allowed : List Text → Text → Bool
is_allowed allowed address = any (λ a. text_eq (to_lower a) (to_lower address)) allowed

unfoldable pub assert_signer_module_allowed : Option Text → Action (Unit {0})
assert_signer_module_allowed address = do
  assert (nonempty (or_else address [])) unaccepted_signer_module
      (codes "permission plugin exposes no signerContractAddress")
  assert (is_allowed accepted_signer_contracts (or_else address [])) unaccepted_signer_module (
      codes "signer contract "
      ++ or_else address []
      ++ codes " is not in KERNEL_PERMISSION_PIN.acceptedSignerContracts")

-- The loop over the addresses.
unfoldable pub assert_each_policy_allowed : List (Option Text) → Action (Unit {0})
assert_each_policy_allowed [] = pure tt
assert_each_policy_allowed (address ∷ rest) = do
  assert (nonempty (or_else address [])) unaccepted_policy_module
      (codes "policy module exposes no contract address")
  assert (is_allowed accepted_policy_contracts (or_else address [])) unaccepted_policy_module (
      codes "policy contract "
      ++ or_else address []
      ++ codes " is not in KERNEL_PERMISSION_PIN.acceptedPolicyContracts")
  assert_each_policy_allowed rest

unfoldable pub assert_policy_modules_allowed : List (Option Text) → Action (Unit {0})
assert_policy_modules_allowed [] =
    refuse unaccepted_policy_module (codes "permission plugin carries zero policy modules")
assert_policy_modules_allowed (address ∷ rest) = assert_each_policy_allowed (address ∷ rest)
