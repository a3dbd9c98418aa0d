-- ===== src/TsSdk/Client.antt =====
-- sdks/typescript/src/client.ts and operator.ts: the requests of the client's methods. Arguments that
-- are not given are `none`; `encodeURIComponent` is the parameter `encode`.
pub mod Polling
use cryptokorr.Common.{
  ℕ, Text, codes, to_string, or_else, Bool, true, false, Option, none, some, List, [], ◌∷◌, ◌++◌,
}
use cryptokorr.TsSdk.Case.{Json, json_string, json_object, Fields, end_object, field}
use cryptokorr.TsSdk.Wire.{HttpMethod, http_get, http_post, RequestOptions}

-- `...(value !== undefined && { key: value })` before the other fields.
unfoldable pub with_optional : Text → Option Text → Fields → Fields
with_optional key none fields = fields
with_optional key (some value) fields = field key (json_string value) fields

abbrev pub text_field : Text → Text → Fields → Fields
text_field key value fields = field key (json_string value) fields

abbrev get_from : Text → RequestOptions
get_from path = record {
  method = http_get;
  path = path;
  body = none;
  query = none;
  idempotency_key = none;
  unauthenticated = false;
  timeout_ms = none;
  retry_budget_ms = none;
}

abbrev post_to : Text → Fields → Option Text → RequestOptions
post_to path fields idempotency_key = record {
  method = http_post;
  path = path;
  body = some (json_object fields);
  query = none;
  idempotency_key = idempotency_key;
  unauthenticated = false;
  timeout_ms = none;
  retry_budget_ms = none;
}

pub record SubmitTransferArgs : Type 0 where
  pub agent_id : Text
  pub asset : Text
  pub chain : Text
  pub amount : Text
  pub target : Json
  pub notes : Option Text
  pub smart_account_id : Option Text
  pub source : Option Text
  pub idempotency_key : Option Text

pub record SubmitSwapArgs : Type 0 where
  pub agent_id : Text
  pub chain : Text
  pub source_asset : Text
  pub destination_asset : Text
  pub amount : Text
  pub smart_account_id : Option Text
  pub notes : Option Text
  pub source : Option Text
  pub idempotency_key : Option Text

pub record SubmitAllocateIdleCapitalArgs : Type 0 where
  pub agent_id : Text
  pub asset : Text
  pub chain : Option Text
  pub amount : Text
  pub vault_address : Text
  pub smart_account_id : Option Text
  pub notes : Option Text
  pub source : Option Text
  pub idempotency_key : Option Text

-- The parameters of the query, as texts.
pub record ListCounterpartiesArgs : Type 0 where
  pub q : Option Text
  pub active : Option Bool
  pub limit : Option ℕ
  pub cursor : Option Text

-- The last fields of the three submissions.
abbrev submission_tail : Option Text → Option Text → Option Text → Fields
submission_tail smart_account_id notes source =
    with_optional (codes "smartAccountId") smart_account_id (
      with_optional (codes "notes") notes
        (text_field (codes "source") (or_else source (codes "agent")) end_object))

unfoldable pub submit_transfer : SubmitTransferArgs → RequestOptions
unfolding with_optional
submit_transfer args =
    post_to (codes "/v1/intents")
      (text_field (codes "agentId") args.agent_id (
        text_field (codes "kind") (codes "transfer") (
          text_field (codes "asset") args.asset (
            text_field (codes "chain") args.chain (
              text_field (codes "amount") args.amount (
                field (codes "target") args.target
                  (submission_tail args.smart_account_id args.notes args.source)))))))
      args.idempotency_key

unfoldable pub submit_swap : SubmitSwapArgs → RequestOptions
unfolding with_optional
submit_swap args =
    post_to (codes "/v1/intents")
      (text_field (codes "agentId") args.agent_id (
        text_field (codes "kind") (codes "swap") (
          text_field (codes "chain") args.chain (
            text_field (codes "asset") args.source_asset (
              text_field (codes "destinationAsset") args.destination_asset (
                text_field (codes "amount") args.amount
                  (submission_tail args.smart_account_id args.notes args.source)))))))
      args.idempotency_key

unfoldable pub submit_allocate_idle_capital : SubmitAllocateIdleCapitalArgs → RequestOptions
unfolding with_optional
submit_allocate_idle_capital args =
    post_to (codes "/v1/intents")
      (text_field (codes "agentId") args.agent_id (
        text_field (codes "kind") (codes "allocate_idle_capital") (
          text_field (codes "asset") args.asset (
            text_field (codes "chain") (or_else args.chain (codes "base-sepolia")) (
              text_field (codes "amount") args.amount (
                text_field (codes "vaultAddress") args.vault_address
                  (submission_tail args.smart_account_id args.notes args.source)))))))
      args.idempotency_key

-- The parameters that are given.
unfoldable pub query_of : List (Text × Option Text) → List (Text × Text)
query_of [] = []
query_of ((key, none) ∷ rest) = query_of rest
query_of ((key, some value) ∷ rest) = (key, value) ∷ query_of rest

abbrev text_of_bool : Bool → Text
text_of_bool true = codes "true"
text_of_bool false = codes "false"

abbrev mapped : {A : Type 0} → (A → Text) → Option A → Option Text
mapped f none = none
mapped f (some a) = some (f a)

unfoldable pub list_counterparties : ListCounterpartiesArgs → RequestOptions
unfolding query_of to_string
list_counterparties args = record (get_from (codes "/v1/counterparties")) {
  query = some (
      query_of (
        (codes "q", args.q)
        ∷ (codes "active", mapped text_of_bool args.active)
        ∷ (codes "limit", mapped (to_string 10) args.limit)
        ∷ (codes "cursor", args.cursor)
        ∷ []));
}

unfoldable pub get_runtime_status : RequestOptions
get_runtime_status = record (get_from (codes "/v1/health/deep")) { unauthenticated = true }

module _ (encode : Text → Text) where
  unfoldable pub get_intent : Text → RequestOptions
  get_intent intent_id = get_from (codes "/v1/intents/" ++ encode intent_id)

  unfoldable pub get_audit_trail : Text → RequestOptions
  get_audit_trail intent_id = get_from (codes "/v1/intents/" ++ encode intent_id ++ codes "/replay")

  unfoldable pub get_decision : Text → RequestOptions
  get_decision decision_id = get_from (codes "/v1/decisions/" ++ encode decision_id)

  unfoldable pub get_policy : Text → RequestOptions
  get_policy policy_id = get_from (codes "/v1/policies/" ++ encode policy_id)

  unfoldable pub simulate_intent : Text → Option Text → Option Text → RequestOptions
  simulate_intent intent_id reason idempotency_key =
      post_to (codes "/v1/intents/" ++ encode intent_id ++ codes "/simulate")
        (text_field (codes "reason") (or_else reason (codes "refresh")) end_object) idempotency_key

  unfoldable pub cancel_intent : Text → Text → Option Text → RequestOptions
  cancel_intent intent_id reason idempotency_key =
      post_to (codes "/v1/intents/" ++ encode intent_id ++ codes "/cancel")
        (text_field (codes "reason") reason end_object) idempotency_key

  -- `approveDecision` and `rejectDecision` with their last path segment.
  abbrev act_on_approval : Text → Text → Text → Option Text → Option Text → RequestOptions
  act_on_approval action decision_id actor_id reason idempotency_key =
      post_to (codes "/v1/approvals/" ++ encode decision_id ++ action)
        (text_field (codes "actorId") actor_id (with_optional (codes "reason") reason end_object))
        idempotency_key

  unfoldable pub approve_decision : Text → Text → Option Text → Option Text → RequestOptions
  unfolding with_optional
  approve_decision = act_on_approval (codes "/approve")

  unfoldable pub reject_decision : Text → Text → Option Text → Option Text → RequestOptions
  unfolding with_optional
  reject_decision = act_on_approval (codes "/reject")

unfoldable pub list_pending_approvals : RequestOptions
list_pending_approvals = get_from (codes "/v1/approvals")

unfoldable pub pause_runtime : Option Text → Option Text → RequestOptions
unfolding with_optional
pause_runtime reason idempotency_key =
    post_to (codes "/v1/security/pause") (with_optional (codes "reason") reason end_object)
      idempotency_key

unfoldable pub resume_runtime : Option Text → RequestOptions
resume_runtime idempotency_key = post_to (codes "/v1/security/resume") end_object idempotency_key
