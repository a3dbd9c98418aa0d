-- ===== src/Server.antt =====
-- chain_adapter/src/server.ts and chains/base/client.ts: what `main` checks before the adapter listens.
pub mod Checked
use cryptokorr.Common.{
  Text, ℕ, zero, suc, ◌==◌, Bool, true, false, Option, none, some, [], ◌∷◌, if◌then◌else◌, Integer,
  whole, minus,
}
use cryptokorr.Effect.{Reply, answered, failed}
use cryptokorr.Config.Operator.{Keys}
use cryptokorr.Config.Loading.{
  AdapterConfig, Loading, loaded, missing_variable, not_integer, invalid_operator, load_config,
}

pub data IdentityError : Type 0 where
  metadata_mismatch rpc_mismatch bundler_mismatch no_chain_id : IdentityError

-- An error that leaves `main`, an exit with status 1, or a server with its certificate and key.
pub data Startup : Type 0 where
  crashed exited : Startup
  listening : AdapterConfig → Option (Text × Text) → Startup

-- `===` on a number that is whole and at least 0.
abbrev pub is_number : Integer → ℕ → Bool
is_number (whole n) m = n == m
is_number (minus zero) m = m == 0
is_number (minus (suc n)) m = false

-- The ids of viem's `base` and `baseSepolia`.
unfoldable pub select_base_chain : Integer → Option ℕ
select_base_chain chain_id =
    if is_number chain_id 8453
    then some 8453
    else if is_number chain_id 84532
    then some 84532
    else none

-- What `main` meets: the environment, `privateKeyToAccount` (which throws on a text that is no key),
-- the chain ids that the endpoints report, the files, `buildApp` with its server, and its `listen`.
pub record Host : Type 0 where
  pub env : Text → Option Text
  pub keys : Keys
  pub is_private_key : Text → Bool
  pub rpc_chain_id : AdapterConfig → Reply ℕ
  pub bundler_chain_id : AdapterConfig → Reply ℕ
  pub read_file : Text → Reply Text
  pub builds : AdapterConfig → Option (Text × Text) → Bool
  pub listens : AdapterConfig → Bool

abbrev pub compare_chain_ids : Integer → Reply ℕ → Reply ℕ → Option IdentityError
compare_chain_ids expected (answered public_id) (answered bundler_id) =
    if is_number expected public_id
    then if is_number expected bundler_id then none else some bundler_mismatch
    else some rpc_mismatch
compare_chain_ids expected (answered public_id) (failed e) = some no_chain_id
compare_chain_ids expected (failed e) bundler_id = some no_chain_id

-- The TLS material, if any, or an exit.
pub data Tls : Type 0 where
  no_exit : Option (Text × Text) → Tls
  tls_exit : Tls

abbrev pub both_read : Reply Text → Reply Text → Tls
both_read (answered cert) (answered key) = no_exit (some (cert, key))
both_read (answered cert) (failed e) = tls_exit
both_read (failed e) key = tls_exit

module _ (host : Host) where
  unfoldable pub assert_base_chain_identity : AdapterConfig → ℕ → Option IdentityError
  assert_base_chain_identity config configured =
      if is_number config.base_chain_id configured
      then compare_chain_ids config.base_chain_id (host.rpc_chain_id config)
          (host.bundler_chain_id config)
      else some metadata_mismatch

  -- `loadConfig` gives no empty path.
  abbrev pub read_tls : Option Text → Option Text → Tls
  read_tls none none = no_exit none
  read_tls (some cert) none = tls_exit
  read_tls none (some key) = tls_exit
  read_tls (some cert) (some key) = both_read (host.read_file cert) (host.read_file key)

  unfoldable pub load_tls_material : AdapterConfig → Tls
  load_tls_material config = read_tls config.tls_cert_path config.tls_key_path

  abbrev pub listen : AdapterConfig → Option (Text × Text) → Bool → Startup
  listen config tls true = listening config tls
  listen config tls false = exited

  abbrev pub build_and_listen : AdapterConfig → Option (Text × Text) → Bool → Startup
  build_and_listen config tls true = listen config tls (host.listens config)
  build_and_listen config tls false = crashed

  abbrev pub with_tls : AdapterConfig → Tls → Startup
  with_tls config (no_exit tls) = build_and_listen config tls (host.builds config tls)
  with_tls config tls_exit = exited

  unfoldable pub after_identity : AdapterConfig → Option IdentityError → Startup
  after_identity config none = with_tls config (load_tls_material config)
  after_identity config (some e) = exited

  -- The chain of `createBaseClients`.
  abbrev pub on_chain : AdapterConfig → Option ℕ → Startup
  on_chain config none = crashed
  on_chain config (some chain) = after_identity config (assert_base_chain_identity config chain)

  abbrev pub with_signer : AdapterConfig → Bool → Startup
  with_signer config true = on_chain config (select_base_chain config.base_chain_id)
  with_signer config false = crashed

  abbrev pub with_config : Loading AdapterConfig → Startup
  with_config (loaded config) =
      with_signer config (host.is_private_key config.delegation_signer_key)
  with_config (missing_variable key) = crashed
  with_config (not_integer key) = crashed
  with_config (invalid_operator e) = crashed

  unfoldable pub main : Startup
  main = with_config (load_config host.env host.keys)
