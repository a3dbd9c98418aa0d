-- ===== src/Contracts/Permission.antt =====
-- chain_adapter/src/contracts/schemas.ts: the permission block, and the dispatches of revoke and
-- grant. The `scope` and `delegation_payload` of a grant are opaque to the adapter and left out.
use cryptokorr.Common.{ℕ, Text, codes, text_eq, nonempty, Bool, ◌&&◌, ◌==◌, all_some, Option}
use cryptokorr.Contracts.Primitives.{Zod, hex_of_length}

pub record PermissionBlock : Type 0 where
  pub blob : Text
  pub permission_id : Text
  pub validation_id : Text
  pub kernel_version : Text
  pub package_version : Text
  pub session_signer_address : Option Text
  pub installed_at_block : Option ℕ
  pub install_tx_hash : Option Text

unfoldable pub permission_schema : PermissionBlock → Bool
permission_schema b =
    nonempty b.blob
    && hex_of_length 8 b.permission_id
    && hex_of_length 42 b.validation_id
    && nonempty b.kernel_version
    && nonempty b.package_version
    && all_some (hex_of_length 40) b.session_signer_address
    && all_some nonempty b.install_tx_hash

pub record DispatchRevokeDelegation : Type 0 where
  pub contract_version : ℕ
  pub action : Text
  pub smart_account_id : Text
  pub delegation_id : Text
  pub reason : Text
  pub permission : Option PermissionBlock
  pub correlation_id : Option Text
  pub emitted_at : Text

pub record DispatchGrantDelegation : Type 0 where
  pub contract_version : ℕ
  pub action : Text
  pub smart_account_id : Text
  pub chain_id : ℕ
  pub account : Text
  pub correlation_id : Option Text
  pub emitted_at : Text

module _ (zod : Zod) where
  unfoldable pub revoke_schema : DispatchRevokeDelegation → Bool
  unfolding permission_schema
  revoke_schema d =
      (d.contract_version == 1)
      && text_eq d.action (codes "revoke_delegation")
      && nonempty d.smart_account_id
      && nonempty d.delegation_id
      && nonempty d.reason
      && all_some permission_schema d.permission
      && zod.is_datetime d.emitted_at

  unfoldable pub grant_schema : DispatchGrantDelegation → Bool
  grant_schema d =
      (d.contract_version == 1)
      && text_eq d.action (codes "grant_delegation")
      && nonempty d.smart_account_id
      && nonempty d.account
      && zod.is_datetime d.emitted_at
