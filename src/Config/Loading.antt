-- ===== src/Config/Loading.antt =====
-- chain_adapter/src/config/index.ts: `loadConfig`. The process environment is a function from names.
pub mod Sound
use cryptokorr.Common.{Text, codes, or_else, Option, none, some, [], ◌∷◌, Integer, whole, parse_int}
use cryptokorr.Config.Operator.{
  Keys, ConfigError, OperatorSigner, absent, operator, invalid, read_operator_signer,
}

pub record AdapterConfig : Type 0 where
  pub port : Integer
  pub host : Text
  pub tls_cert_path : Option Text
  pub tls_key_path : Option Text
  pub dispatch_auth_secret : Text
  pub phoenix_base_url : Text
  pub callback_auth_secret : Text
  pub base_rpc_url : Text
  pub base_chain_id : Integer
  pub bundler_rpc_url : Text
  pub smart_account_address : Text
  pub entry_point_address : Text
  pub delegation_signer_key : Text
  pub operator_private_key : Option Text
  pub operator_address : Option Text
  pub usdc_contract_address : Text
  pub contract_version : Integer

-- What was loaded, or the error that `loadConfig` throws.
pub data Loading (A : Type 0) : Type 0 where
  loaded : A → Loading A
  missing_variable : Text → Loading A
  not_integer : Text → Loading A
  invalid_operator : ConfigError → Loading A

infixl 5 ◌>>=◌
unfoldable pub ◌>>=◌ : {A B : Type 0} → Loading A → (A → Loading B) → Loading B
◌>>=◌ (loaded a) f = f a
◌>>=◌ (missing_variable key) f = missing_variable key
◌>>=◌ (not_integer key) f = not_integer key
◌>>=◌ (invalid_operator e) f = invalid_operator e

unfoldable pub operator_pair : OperatorSigner → Loading (Option (Text × Text))
operator_pair absent = loaded none
operator_pair (operator key address) = loaded (some (key, address))
operator_pair (invalid e) = invalid_operator e

-- `operator.key` and `operator.address`
abbrev pub pair_key : Option (Text × Text) → Option Text
pair_key none = none
pair_key (some pair) = some pair.0

abbrev pub pair_address : Option (Text × Text) → Option Text
pair_address none = none
pair_address (some pair) = some pair.1

module _ (env : Text → Option Text) where
  -- A variable that is set, and not to the empty text.
  unfoldable pub optional_string : Text → Option Text
  optional_string key = elim (env key) [
    | none ↦ none
    | some [] ↦ none
    | some (c ∷ s) ↦ some (c ∷ s)
  ]

  unfoldable pub required : Text → Loading Text
  unfolding optional_string
  required key = elim (optional_string key) [
    | none ↦ missing_variable key
    | some value ↦ loaded value
  ]

  unfoldable pub optional : Text → Text → Text
  unfolding optional_string
  optional key fallback = or_else (optional_string key) fallback

  unfoldable pub optional_int : Text → Integer → Loading Integer
  unfolding optional_string parse_int
  optional_int key fallback = elim (optional_string key) [
    | none ↦ loaded fallback
    | some raw ↦ elim (parse_int raw) [ none ↦ not_integer key | some n ↦ loaded n ]
  ]

  unfoldable pub load_config : Keys → Loading AdapterConfig
  unfolding required optional optional_int operator_pair
  load_config keys = do
    delegation_signer_key ← required (codes "DELEGATION_SIGNER_KEY")
    pair ← operator_pair (
        read_operator_signer keys (env (codes "OPERATOR_PRIVATE_KEY"))
          (env (codes "OPERATOR_ADDRESS")) delegation_signer_key)
    port ← optional_int (codes "PORT") (whole 4100)
    dispatch_auth_secret ← required (codes "ADAPTER_DISPATCH_SECRET")
    phoenix_base_url ← required (codes "PHOENIX_BASE_URL")
    callback_auth_secret ← required (codes "ADAPTER_CALLBACK_SECRET")
    base_rpc_url ← required (codes "BASE_RPC_URL")
    base_chain_id ← optional_int (codes "BASE_CHAIN_ID") (whole 8453)
    bundler_rpc_url ← required (codes "BUNDLER_RPC_URL")
    smart_account_address ← required (codes "SMART_ACCOUNT_ADDRESS")
    usdc_contract_address ← required (codes "USDC_CONTRACT_ADDRESS")
    contract_version ← optional_int (codes "CONTRACT_VERSION") (whole 1)
    loaded (record {
      port = port;
      host = optional (codes "HOST") (codes "0.0.0.0");
      tls_cert_path = optional_string (codes "ADAPTER_TLS_CERT_PATH");
      tls_key_path = optional_string (codes "ADAPTER_TLS_KEY_PATH");
      dispatch_auth_secret = dispatch_auth_secret;
      phoenix_base_url = phoenix_base_url;
      callback_auth_secret = callback_auth_secret;
      base_rpc_url = base_rpc_url;
      base_chain_id = base_chain_id;
      bundler_rpc_url = bundler_rpc_url;
      smart_account_address = smart_account_address;
      entry_point_address =
          optional (codes "ENTRY_POINT_ADDRESS")
            (codes "0x0000000071727De22E5E9d8BAf0edAc6f37da032");
      delegation_signer_key = delegation_signer_key;
      operator_private_key = pair_key pair;
      operator_address = pair_address pair;
      usdc_contract_address = usdc_contract_address;
      contract_version = contract_version;
    })
