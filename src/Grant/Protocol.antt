-- ===== src/Grant/Protocol.antt =====
-- The contract of a grant with Phoenix, the SDK and the chain, as a state machine over the log: each
-- phase holds the answer on which the next event depends.
pub mod Stages
use cryptokorr.Common.{ℕ, Text, codes, ◌≡◌, true, false, none, some}
use cryptokorr.Contracts.Callback.{granted, grant_failed, delegation_state_changed}
use cryptokorr.Effect.{
  Reply, answered, failed, Outcome, Receipt, Event, History, validator_built, session_signer_built,
  permission_built, account_built, install_submitted, install_awaited, permission_serialized,
  posted,
}
use cryptokorr.Trace.Attempts.{Attempt}
use cryptokorr.Revoke.Protocol.{HasOperator}
use cryptokorr.Grant.{
  GrantSdk, GrantConfig, GrantResult, grant_result, granted_block, permission_install_gas_limits,
  zero_address,
}

pub data GrantPhase : Type 0 where
  started : GrantPhase
  planned : Reply Text → GrantPhase
  sent : Text → Reply Text → GrantPhase
  mined : Text → Reply Receipt → GrantPhase
  serialized : Text → Receipt → Reply Text → GrantPhase
  confirmed : GrantResult → GrantPhase
  refused : GrantPhase

-- An operator key and address, and the chain that the adapter is configured for.
pub record IsAllowed (config : GrantConfig) (chain_id : ℕ) : Type 0 where
  pub has_operator : HasOperator config.operator
  pub same_chain : chain_id ≡ config.base_chain_id

-- The phases in which a failure may be reported: none in which the install is known to be on chain,
-- unless its account could not be serialized.
pub data CanFail : GrantPhase → Type 0 where
  at_start : CanFail started
  at_planned : (r : Reply Text) → CanFail (planned r)
  at_sent : (id : Text) (r : Reply Text) → CanFail (sent id r)
  at_unconfirmed : (id message : Text) → CanFail (mined id (failed message))
  at_reverted :
      (id : Text) (receipt : Receipt)
      → receipt.success ≡ false
      → CanFail (mined id (answered receipt))
  at_unserialized :
      (id : Text) (receipt : Receipt) (message : Text)
      → CanFail (serialized id receipt (failed message))
  again : CanFail refused

module _ (sdk : GrantSdk) (config : GrantConfig) (chain_id : ℕ) (smart_account_id : Text) where
  pub data Legal (hist : History) : GrantPhase → Event → GrantPhase → Type 0 where
    build_validator : IsAllowed config chain_id → Legal hist started validator_built started
    build_signer : Legal hist started session_signer_built started
    build_permission : Legal hist started permission_built (planned (sdk.build_permission hist))
    build_account : (r : Reply Text) → Legal hist (planned r) account_built (planned r)
    install :
        (id call_data : Text)
        → IsAllowed config chain_id
        → sdk.encode_call zero_address 0 (codes "0x") ≡ answered call_data
        → Legal hist
            (planned (answered id))
            (install_submitted call_data permission_install_gas_limits)
            (sent id (sdk.install hist call_data permission_install_gas_limits))
    wait :
        (id h : Text)
        → Legal hist
            (sent id (answered h))
            (install_awaited h)
            (mined id (sdk.wait_for_install hist h))
    serialize :
        (id : Text) (receipt : Receipt)
        → receipt.success ≡ true
        → Legal hist
            (mined id (answered receipt))
            permission_serialized
            (serialized id receipt (sdk.serialize hist))
    confirm :
        (id address blob callback now : Text) (receipt : Receipt)
        → receipt.success ≡ true
        → sdk.address_of_key config.delegation_signer_key ≡ answered address
        → Legal hist
            (serialized id receipt (answered blob))
            (posted (
              delegation_state_changed callback smart_account_id id granted
                (codes "wallet_connect_install")
                none
                (some (granted_block (grant_result sdk.hex id address receipt blob)))
                now))
            (confirmed (grant_result sdk.hex id address receipt blob))
    fail :
        {p : GrantPhase} (callback placeholder reason now : Text)
        → CanFail p
        → Legal hist p
            (posted (
              delegation_state_changed callback smart_account_id placeholder grant_failed reason
                none none now))
            refused

abbrev pub IsRefused : GrantPhase → Type 0
IsRefused r = r ≡ refused

-- A step of the grant that may fail.
abbrev pub Try : {A : Type 0} → (A → GrantPhase → Type 0) → Outcome A → GrantPhase → Type 0
Try = Attempt CanFail IsRefused
