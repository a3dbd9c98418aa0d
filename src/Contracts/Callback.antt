-- ===== src/Contracts/Callback.antt =====
-- chain_adapter/src/contracts/schemas.ts: the callbacks from the adapter to Phoenix, and the check
-- that `CallbackSchemasByKind` makes of each. `contract_version` is the literal 1 in every payload.
use cryptokorr.Common.{
  ℕ, Text, nonempty, Bool, false, ◌&&◌, ◌||◌, all, all_some, is_some, Option, List, [], ◌∷◌,
}
use cryptokorr.Contracts.Primitives.{Zod}
use cryptokorr.Contracts.Permission.{PermissionBlock, permission_schema}

-- `nonce` is always a hex string here; `block_number` is `Number(blockNumber)`, exact below 2^53.
pub record TxRef : Type 0 where
  pub chain : Text
  pub hash : Option Text
  pub userop_hash : Option Text
  pub nonce : Option Text
  pub block_number : Option ℕ
  pub status : Option Text
  pub bundler : Option Text

unfoldable pub tx_ref_schema : TxRef → Bool
tx_ref_schema r =
    nonempty r.chain
    && all_some nonempty r.hash
    && all_some nonempty r.userop_hash
    && all_some nonempty r.nonce
    && all_some nonempty r.bundler
    && (is_some r.hash || is_some r.userop_hash)

unfoldable pub tx_refs_schema : List TxRef → Bool
unfolding tx_ref_schema
tx_refs_schema [] = false
tx_refs_schema (r ∷ rs) = tx_ref_schema r && all tx_ref_schema rs

pub data DelegationState : Type 0 where
  granted grant_failed revoking revoke_failed revoked expired : DelegationState

pub record BalanceItem : Type 0 where
  pub asset : Text
  pub amount : Text

-- Each constructor takes `callback_id` first, and `emitted_at` last.
pub data CallbackPayload : Type 0 where
  execution_broadcast : Text → Text → List TxRef → Text → CallbackPayload
  execution_confirmed : Text → Text → List TxRef → List BalanceItem → Text → CallbackPayload
  execution_reverted : Text → Text → List TxRef → Text → Text → CallbackPayload
  execution_aborted : Text → Text → Text → Text → CallbackPayload
  delegation_state_changed :
      Text
      → Text
      → Text
      → DelegationState
      → Text
      → Option (List TxRef)
      → Option PermissionBlock
      → Text
      → CallbackPayload

unfoldable pub callback_id : CallbackPayload → Text
callback_id (execution_broadcast id plan refs at) = id
callback_id (execution_confirmed id plan refs items at) = id
callback_id (execution_reverted id plan refs reason at) = id
callback_id (execution_aborted id plan reason at) = id
callback_id (delegation_state_changed id account delegation state reason refs block at) = id

module _ (zod : Zod) where
  open zod use {is_uuid, is_datetime}

  unfoldable pub callback_schema : CallbackPayload → Bool
  unfolding tx_refs_schema permission_schema
  callback_schema (execution_broadcast id plan refs at) =
      nonempty id && is_uuid plan && tx_refs_schema refs && is_datetime at
  callback_schema (execution_confirmed id plan refs items at) =
      nonempty id
      && is_uuid plan
      && tx_refs_schema refs
      && all (λ item. nonempty item.asset) items
      && is_datetime at
  callback_schema (execution_reverted id plan refs reason at) =
      nonempty id && is_uuid plan && tx_refs_schema refs && nonempty reason && is_datetime at
  callback_schema (execution_aborted id plan reason at) =
      nonempty id && is_uuid plan && nonempty reason && is_datetime at
  callback_schema (delegation_state_changed id account delegation state reason refs block at) =
      nonempty id
      && nonempty account
      && nonempty delegation
      && nonempty reason
      && all_some (all tx_ref_schema) refs
      && all_some permission_schema block
      && is_datetime at
