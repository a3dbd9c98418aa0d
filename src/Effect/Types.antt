-- ===== src/Effect/Types.antt =====
-- What the adapter exchanges with the outside, and the log of it.
use cryptokorr.Common.{ℕ, Text, Bool, Option, List}
use cryptokorr.Contracts.Primitives.{Zod}
use cryptokorr.Contracts.Callback.{CallbackPayload}
use cryptokorr.Errors.{AdapterError}

-- A promise of third-party code, settled: `failed` carries the rejection's message.
pub data Reply (A : Type 0) : Type 0 where
  answered : A → Reply A
  failed : Text → Reply A

-- What a function of the adapter throws: one of its own errors, a `CryptographicRevokeError` (code
-- and message), or some other `Error`.
pub data Thrown : Type 0 where
  adapter : AdapterError → Thrown
  cryptographic : Text → Text → Thrown
  unexpected : Text → Thrown

pub data Outcome (A : Type 0) : Type 0 where
  ok : A → Outcome A
  thrown : Thrown → Outcome A

-- A v0.7 UserOperation without factory and paymaster, which the adapter never sets.
pub record UserOp : Type 0 where
  pub sender : Text
  pub nonce : ℕ
  pub call_data : Text
  pub call_gas_limit : ℕ
  pub verification_gas_limit : ℕ
  pub pre_verification_gas : ℕ
  pub max_fee_per_gas : ℕ
  pub max_priority_fee_per_gas : ℕ
  pub signature : Text

pub record Fees : Type 0 where
  pub max_fee_per_gas : ℕ
  pub max_priority_fee_per_gas : ℕ

pub record GasEstimate : Type 0 where
  pub call_gas_limit : ℕ
  pub verification_gas_limit : ℕ
  pub pre_verification_gas : ℕ

-- The part of the bundler's receipt that the adapter reads.
pub record Receipt : Type 0 where
  pub success : Bool
  pub transaction_hash : Text
  pub block_number : ℕ
  pub reason : Option Text

pub record HttpResponse : Type 0 where
  pub is_ok : Bool
  pub status : ℕ
  pub body : Text

pub data Event : Type 0 where
  nonce_read : Event
  fees_read : Event
  gas_estimated : UserOp → Event
  signed : Text → Event
  submitted : UserOp → Event
  awaited : Text → Event
  posted : CallbackPayload → Event
  validator_built : Event
  signer_stubbed : Event
  deserialized : Text → Event
  account_built : Event
  uninstalled : Text → Event
  uninstall_awaited : Text → Event
  session_signer_built : Event
  permission_built : Event
  install_submitted : Text → GasEstimate → Event
  install_awaited : Text → Event
  permission_serialized : Event

abbrev pub History : Type 0
History = List Event

pub record World : Type 0 where
  pub callback_seq : ℕ
  pub history : History

pub record Env : Type 0 where
  pub zod : Zod
  pub date_parse : Text → Option ℕ
  pub encode_transfer : Text → ℕ → Reply Text
  pub encode_approve : Text → ℕ → Reply Text
  pub encode_deposit : ℕ → Text → Reply Text
  pub encode_execute : Text → ℕ → Text → Reply Text
  pub encode_execute_batch : List Text → List ℕ → List Text → Reply Text
  pub hash_user_op : ℕ → Text → UserOp → Text
  pub clock : History → Text
  pub clock_ms : History → ℕ
  pub get_nonce : History → Text → Text → ℕ → Reply ℕ
  pub estimate_fees : History → Reply Fees
  pub estimate_gas : History → UserOp → Reply GasEstimate
  pub sign_message : History → Text → Reply Text
  pub send_user_operation : History → UserOp → Reply Text
  pub wait_for_receipt : History → Text → Reply Receipt
  pub post_callback : History → CallbackPayload → Reply HttpResponse

-- `BaseClients`: the addresses that it holds, and the chain id of its public client.
pub record BaseClients : Type 0 where
  pub chain_id : ℕ
  pub smart_account_address : Text
  pub entry_point_address : Text
