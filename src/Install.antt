-- ===== src/Install.antt =====
-- chain_adapter/src/install/session_signer.ts: the signature of the session key under an install
-- UserOperation. viem's account is `SessionAccounts`; signing is local, so nothing is logged.
pub mod Portion
use cryptokorr.Common.{
  ℕ, ◌==◌, Text, codes, text_eq, to_lower, nonempty, all_some, Bool, ◌&&◌, Option, none, some,
  if◌then◌else◌,
}
use cryptokorr.Contracts.Primitives.{Zod, hex_address, hex_of_length}
use cryptokorr.Errors.{validation_error}
use cryptokorr.Effect.{Reply, adapter, Action, pure, throw, ◌>>=◌}
use cryptokorr.Execution.Pipeline.{run_encoder}

-- The address of a private key, and its signature of a raw hash.
pub record SessionAccounts : Type 0 where
  pub address_of : Text → Reply Text
  pub sign_message : Text → Text → Reply Text

-- contracts/schemas.ts: the body of the route.
pub record InstallSignSessionPortion : Type 0 where
  pub contract_version : ℕ
  pub binding_id : Text
  pub smart_account_id : Text
  pub user_op_hash : Text
  pub session_signer_address : Option Text

unfoldable pub install_schema : Zod → InstallSignSessionPortion → Bool
install_schema zod d =
    d.contract_version == 1
    && zod.is_uuid d.binding_id
    && nonempty d.smart_account_id
    && hex_of_length 64 d.user_op_hash
    && all_some hex_address d.session_signer_address

pub record SignInstallResult : Type 0 where
  pub signature : Text
  pub session_signer_address : Text

module _ (accounts : SessionAccounts) where
  -- `toLowerCase()` on both addresses.
  unfoldable pub is_expected_signer : Option Text → Text → Bool
  is_expected_signer expected address =
      all_some (λ a. text_eq (to_lower a) (to_lower address)) expected

  unfoldable pub sign_with : Text → Text → Option Text → Text → Action SignInstallResult
  unfolding is_expected_signer
  sign_with key user_op_hash expected address =
      if is_expected_signer expected address
      then run_encoder (accounts.sign_message key user_op_hash)
        >>= (λ signature. pure (record { signature = signature; session_signer_address = address }))
      else throw (
          adapter (
            validation_error
              (codes "session_signer_address does not match this adapter's DELEGATION_SIGNER_KEY")))

  unfoldable pub sign_install_session_portion : Text → Text → Option Text → Action SignInstallResult
  unfolding sign_with
  sign_install_session_portion key user_op_hash expected =
      if hex_of_length 64 user_op_hash
      then if hex_of_length 64 key
        then run_encoder (accounts.address_of key) >>= sign_with key user_op_hash expected
        else throw (
            adapter (
              validation_error
                (codes "delegation signer key is not configured or has wrong shape")))
      else throw (adapter (validation_error (codes "user_op_hash must be 0x-prefixed 32-byte hex")))

  -- The handler of the route in app.ts.
  unfoldable pub handle_sign_session_portion :
      Zod → Text → Option InstallSignSessionPortion → Action SignInstallResult
  unfolding install_schema sign_install_session_portion
  handle_sign_session_portion zod key none =
      throw (adapter (validation_error (codes "Invalid install/sign_session_portion payload")))
  handle_sign_session_portion zod key (some d) =
      if install_schema zod d
      then sign_install_session_portion key d.user_op_hash d.session_signer_address
      else throw (adapter (validation_error (codes "Invalid install/sign_session_portion payload")))
