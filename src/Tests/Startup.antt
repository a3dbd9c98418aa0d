-- ===== src/Tests/Startup.antt =====
-- chain_adapter/src/config/index.ts and server.ts: environments that `loadConfig` accepts and refuses,
-- and a host on which the adapter starts.
use cryptokorr.Common.{
  ℕ, Text, codes, text_eq, ◌≡◌, refl, true, Option, none, some, [], ◌∷◌, List, if◌then◌else◌,
  Integer, whole, is_space,
}
use cryptokorr.Config.Operator.{Keys, half_set, read_operator_signer}
use cryptokorr.Config.Loading.{
  AdapterConfig, Loading, loaded, missing_variable, not_integer, invalid_operator, ◌>>=◌,
  load_config,
}
use cryptokorr.Effect.{answered}
use cryptokorr.Server.{
  exited, listening, Host, select_base_chain, assert_base_chain_identity, load_tls_material,
  after_identity, main,
}
use cryptokorr.Server.Checked.{IsStarted, main-IsStarted}
use cryptokorr.Config.Loading.Sound.{Explained, IsLoadedFrom, load_config-Explained}

-- Addresses are the keys themselves.
abbrev own_keys : Keys
own_keys = record {
  is_hex = λ s. true;
  is_address = λ s. true;
  get_address = λ s. s;
  address_of = λ s. some s;
}

abbrev lookup : List (Text × Text) → Text → Option Text
lookup [] key = none
lookup ((name, value) ∷ rest) key = if text_eq name key then some value else lookup rest key

abbrev required_variables : List (Text × Text)
required_variables =
    (codes "DELEGATION_SIGNER_KEY", codes "dev")
    ∷ (codes "ADAPTER_DISPATCH_SECRET", codes "s3cret")
    ∷ (codes "PHOENIX_BASE_URL", codes "http://phoenix")
    ∷ (codes "ADAPTER_CALLBACK_SECRET", codes "c4llback")
    ∷ (codes "BASE_RPC_URL", codes "http://rpc")
    ∷ (codes "BUNDLER_RPC_URL", codes "http://bundler")
    ∷ (codes "SMART_ACCOUNT_ADDRESS", codes "0xacc")
    ∷ (codes "USDC_CONTRACT_ADDRESS", codes "0xusdc")
    ∷ []

abbrev variables : Text → Option Text
variables = lookup ((codes "PORT", codes "8080") ∷ (codes "HOST", []) ∷ required_variables)

-- A result with what is asked of its configuration.
abbrev shown : Loading AdapterConfig → Option (Integer × Text × Option Text)
shown (loaded cfg) = some (cfg.port, cfg.host, cfg.operator_address)
shown (missing_variable key) = none
shown (not_integer key) = none
shown (invalid_operator e) = none

empty_host : shown (load_config variables own_keys) ≡ some (whole 8080, codes "0.0.0.0", none)
unfolding load_config ◌>>=◌ read_operator_signer text_eq is_space
empty_host = refl

no_session_key : load_config (lookup []) own_keys ≡ missing_variable (codes "DELEGATION_SIGNER_KEY")
unfolding load_config ◌>>=◌
no_session_key = refl

port_is_name :
    load_config (lookup ((codes "PORT", codes "http") ∷ required_variables)) own_keys
    ≡ not_integer (codes "PORT")
unfolding load_config ◌>>=◌ read_operator_signer text_eq is_space
port_is_name = refl

half_operator :
    load_config (lookup ((codes "OPERATOR_ADDRESS", codes "0xop") ∷ required_variables)) own_keys
    ≡ invalid_operator half_set
unfolding load_config ◌>>=◌ read_operator_signer text_eq
half_operator = refl

load_config-Explained_example :
    Explained variables own_keys (IsLoadedFrom variables own_keys) (load_config variables own_keys)
load_config-Explained_example = load_config-Explained variables own_keys

-- The RPC node is on Base, and the bundler on the given chain; every file is empty.
abbrev host_with : ℕ → Host
host_with bundler_chain = record {
  env = variables;
  keys = own_keys;
  is_private_key = λ s. true;
  rpc_chain_id = λ c. answered 8453;
  bundler_chain_id = λ c. answered bundler_chain;
  read_file = λ path. answered [];
  builds = λ c tls. true;
  listens = λ c. true;
}

abbrev config : AdapterConfig
config = record {
  port = whole 8080;
  host = codes "0.0.0.0";
  tls_cert_path = none;
  tls_key_path = none;
  dispatch_auth_secret = codes "s3cret";
  phoenix_base_url = codes "http://phoenix";
  callback_auth_secret = codes "c4llback";
  base_rpc_url = codes "http://rpc";
  base_chain_id = whole 8453;
  bundler_rpc_url = codes "http://bundler";
  smart_account_address = codes "0xacc";
  entry_point_address = codes "0x0000000071727De22E5E9d8BAf0edAc6f37da032";
  delegation_signer_key = codes "dev";
  operator_private_key = none;
  operator_address = none;
  usdc_contract_address = codes "0xusdc";
  contract_version = whole 1;
}

starts : main (host_with 8453) ≡ listening config none
unfolding main load_config ◌>>=◌ read_operator_signer text_eq is_space select_base_chain
    assert_base_chain_identity load_tls_material after_identity
starts = refl

wrong_bundler : main (host_with 84532) ≡ exited
unfolding main load_config ◌>>=◌ read_operator_signer text_eq is_space select_base_chain
    assert_base_chain_identity load_tls_material after_identity
wrong_bundler = refl

main-IsStarted_example : IsStarted (host_with 8453) config none
main-IsStarted_example = main-IsStarted (host_with 8453) config none starts
