-- ===== src/Contracts/Dispatch.antt =====
-- chain_adapter/src/contracts/schemas.ts: the dispatches of transfers, Morpho deposits and swaps.
-- The `scope` of `signing_requirements` is any record, which nothing reads: it is left out.
use cryptokorr.Common.{
  ℕ, Text, codes, text_eq, nonempty, Bool, ◌&&◌, all, ◌==◌, all_some, Option, List,
}
use cryptokorr.Contracts.Primitives.{Zod, hex_address, decimal_string}

pub record DispatchTransfer : Type 0 where
  pub contract_version : ℕ
  pub action : Text
  pub execution_plan_id : Text
  pub intent_id : Text
  pub smart_account_id : Text
  pub chain : Text
  pub asset : Text
  pub amount : Text
  pub target_address : Text
  pub target_counterparty_id : Option Text
  pub delegation_id : Text
  pub correlation_id : Text
  pub emitted_at : Text

pub record DispatchMorphoDeposit : Type 0 where
  pub contract_version : ℕ
  pub action : Text
  pub execution_plan_id : Text
  pub intent_id : Text
  pub smart_account_id : Text
  pub chain : Text
  pub asset : Text
  pub amount : Text
  pub vault_address : Text
  pub receiver : Text
  pub snapshot_id : Option Text
  pub snapshot_payload_hash : Option Text
  pub policy_rule_ids : List Text
  pub delegation_id : Text
  pub correlation_id : Text
  pub emitted_at : Text

-- The optional fields are those of a route that can be executed.
pub record SwapRoute : Type 0 where
  pub venue : Text
  pub path : List Text
  pub swap_target_contract : Option Text
  pub calldata : Option Text
  pub spender : Option Text
  pub source_token_address : Option Text
  pub destination_token_address : Option Text
  pub minimum_output_amount : Option Text
  pub value : Option Text
  pub route_provider : Option Text
  pub deadline : Option Text

-- `slippage_bps` is a number that the schema wants to be an integer, 0 or more.
pub record DispatchSwap : Type 0 where
  pub contract_version : ℕ
  pub action : Text
  pub execution_plan_id : Text
  pub intent_id : Text
  pub smart_account_id : Text
  pub chain : Text
  pub input_asset : Text
  pub output_asset : Text
  pub input_amount : Text
  pub expected_output : Text
  pub slippage_bps : ℕ
  pub route : SwapRoute
  pub delegation_id : Text
  pub correlation_id : Text
  pub emitted_at : Text

module _ (zod : Zod) where
  open zod use {is_uuid, is_datetime}

  unfoldable pub transfer_schema : DispatchTransfer → Bool
  transfer_schema d =
      (d.contract_version == 1)
      && text_eq d.action (codes "transfer")
      && is_uuid d.execution_plan_id
      && is_uuid d.intent_id
      && nonempty d.smart_account_id
      && nonempty d.chain
      && nonempty d.asset
      && decimal_string d.amount
      && hex_address d.target_address
      && all_some is_uuid d.target_counterparty_id
      && nonempty d.delegation_id
      && is_uuid d.correlation_id
      && is_datetime d.emitted_at

  unfoldable pub morpho_deposit_schema : DispatchMorphoDeposit → Bool
  morpho_deposit_schema d =
      (d.contract_version == 1)
      && text_eq d.action (codes "morpho_deposit")
      && is_uuid d.execution_plan_id
      && is_uuid d.intent_id
      && nonempty d.smart_account_id
      && nonempty d.chain
      && nonempty d.asset
      && decimal_string d.amount
      && hex_address d.vault_address
      && nonempty d.receiver
      && all_some is_uuid d.snapshot_id
      && all_some nonempty d.snapshot_payload_hash
      && all is_uuid d.policy_rule_ids
      && nonempty d.delegation_id
      && is_uuid d.correlation_id
      && is_datetime d.emitted_at

  unfoldable pub route_schema : SwapRoute → Bool
  route_schema r =
      nonempty r.venue
      && all_some hex_address r.swap_target_contract
      && all_some hex_address r.calldata
      && all_some hex_address r.spender
      && all_some hex_address r.source_token_address
      && all_some hex_address r.destination_token_address
      && all_some decimal_string r.minimum_output_amount
      && all_some decimal_string r.value
      && all_some nonempty r.route_provider
      && all_some is_datetime r.deadline

  unfoldable pub swap_schema : DispatchSwap → Bool
  unfolding route_schema
  swap_schema d =
      (d.contract_version == 1)
      && text_eq d.action (codes "swap")
      && is_uuid d.execution_plan_id
      && is_uuid d.intent_id
      && nonempty d.smart_account_id
      && nonempty d.chain
      && nonempty d.input_asset
      && nonempty d.output_asset
      && decimal_string d.input_amount
      && decimal_string d.expected_output
      && route_schema d.route
      && nonempty d.delegation_id
      && is_uuid d.correlation_id
      && is_datetime d.emitted_at
