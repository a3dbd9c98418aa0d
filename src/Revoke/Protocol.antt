-- ===== src/Revoke/Protocol.antt =====
-- The contract of a cryptographic revoke with Phoenix, the SDK and the chain, as a state machine over
-- the log: each phase holds the answer on which the next event depends.
pub mod Stages
use cryptokorr.Common.{
  ℕ, ◌<◌, Text, codes, to_lower, nonempty, length, all, or_else, ◌≡◌, Bool, true, false, ◌&&◌,
  Option, none, some, List, [], ◌∷◌,
}
use cryptokorr.Contracts.Permission.{PermissionBlock}
use cryptokorr.Contracts.Callback.{
  TxRef, DelegationState, revoked, revoke_failed, delegation_state_changed,
}
use cryptokorr.Errors.{
  callback_error, execution_error, validation_error, unsupported_error, not_implemented_error,
}
use cryptokorr.Effect.{
  Reply, answered, failed, Thrown, adapter, cryptographic, unexpected, Outcome, ok, thrown, Receipt,
  Event, History, validator_built, signer_stubbed, deserialized, account_built, uninstalled,
  uninstall_awaited, posted,
}
use cryptokorr.Trace.Attempts.{Attempt}
use cryptokorr.Execution.Swap.{truthy}
use cryptokorr.Revoke.Guards.{
  validation_id_of, pinned_package_version, is_allowed, accepted_signer_contracts,
  accepted_policy_contracts,
}
use cryptokorr.Revoke.Cryptographic.{
  OperatorConfig, Plugin, Sdk, uninstall_tx_ref, extract_policy_contract_addresses,
}

pub data RevokePhase : Type 0 where
  started : RevokePhase
  stubbed : Reply (Option Text) → RevokePhase
  loaded : Reply (Option Plugin) → RevokePhase
  sent : Reply Text → RevokePhase
  mined : Text → Reply Receipt → RevokePhase
  finished : DelegationState → RevokePhase

-- A contract address that is there, and that the list has up to case.
abbrev pub is_pinned : List Text → Option Text → Bool
is_pinned contracts address =
    nonempty (or_else address []) && is_allowed contracts (or_else address [])

-- At least one policy, and pinned ones only.
abbrev pub PoliciesPinned : List (Option Text) → Type 0
PoliciesPinned addresses =
    (0 < length addresses) × (all (is_pinned accepted_policy_contracts) addresses ≡ true)

abbrev pub PluginPinned : Plugin → Type 0
PluginPinned plugin =
    (policies : Option (List (Option Text))) × (plugin.serialization_params ≡ some policies)
    × PoliciesPinned (extract_policy_contract_addresses policies)

-- The block's id, package version and session signer are as the pin wants them.
pub record IsPinnedBlock (sdk : Sdk) (block : PermissionBlock) : Type 0 where
  pub validation_id :
      to_lower (validation_id_of sdk.hex block.permission_id) ≡ to_lower block.validation_id
  pub package_version : block.package_version ≡ pinned_package_version
  pub session_signer : truthy block.session_signer_address ≡ true

pub record HasOperator (config : OperatorConfig) : Type 0 where
  pub operator_private_key : truthy config.operator_private_key ≡ true
  pub operator_address : truthy config.operator_address ≡ true

-- The phases in which a failure may be reported: all but those in which the uninstall succeeded.
pub data CanFail : RevokePhase → Type 0 where
  at_start : CanFail started
  at_stubbed : (r : Reply (Option Text)) → CanFail (stubbed r)
  at_loaded : (r : Reply (Option Plugin)) → CanFail (loaded r)
  at_sent : (r : Reply Text) → CanFail (sent r)
  at_unconfirmed : (h message : Text) → CanFail (mined h (failed message))
  at_reverted :
      (h : Text) (receipt : Receipt)
      → receipt.success ≡ false
      → CanFail (mined h (answered receipt))
  again : CanFail (finished revoke_failed)

module _ (sdk : Sdk) (config : OperatorConfig) (block : PermissionBlock)
    (smart_account_id delegation_id reason : Text) where
  pub data Legal (hist : History) : RevokePhase → Event → RevokePhase → Type 0 where
    build_validator :
        HasOperator config → IsPinnedBlock sdk block → Legal hist started validator_built started
    stub :
        Legal hist started signer_stubbed
          (stubbed (sdk.stub_signer hist (or_else block.session_signer_address [])))
    load :
        (address : Option Text)
        → is_pinned accepted_signer_contracts address ≡ true
        → Legal hist
            (stubbed (answered address))
            (deserialized block.blob)
            (loaded (sdk.deserialize hist block.blob (or_else block.session_signer_address [])))
    build_account : (r : Reply (Option Plugin)) → Legal hist (loaded r) account_built (loaded r)
    uninstall :
        (plugin : Plugin)
        → HasOperator config
        → IsPinnedBlock sdk block
        → PluginPinned plugin
        → Legal hist
            (loaded (answered (some plugin)))
            (uninstalled block.blob)
            (sent (sdk.uninstall hist block.blob))
    wait :
        (h : Text)
        → Legal hist
            (sent (answered h))
            (uninstall_awaited h)
            (mined h (sdk.wait_for_uninstall hist h))
    confirm :
        (h : Text) (receipt : Receipt) (id now : Text)
        → receipt.success ≡ true
        → Legal hist
            (mined h (answered receipt))
            (posted (
              delegation_state_changed id smart_account_id delegation_id revoked reason
                (some (uninstall_tx_ref h receipt (codes "success") ∷ []))
                none
                now))
            (finished revoked)
    fail :
        {p : RevokePhase} (id text now : Text) (refs : Option (List TxRef))
        → CanFail p
        → Legal hist p
            (posted (
              delegation_state_changed id smart_account_id delegation_id revoke_failed text refs
                none now))
            (finished revoke_failed)

abbrev pub IsFailed : RevokePhase → Type 0
IsFailed r = r ≡ finished revoke_failed

-- A step of the revoke that may fail.
abbrev pub Try : {A : Type 0} → (A → RevokePhase → Type 0) → Outcome A → RevokePhase → Type 0
Try = Attempt CanFail IsFailed
