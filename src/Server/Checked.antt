-- ===== src/Server/Checked.antt =====
-- chain_adapter/src/server.ts: what holds of an adapter that listens.
use cryptokorr.Common.{
  Text, ℕ, zero, suc, ◌≡◌, refl, ap, sym, subst, ◌∙◌, Bool, true, false, Option, none, some, ◌⊎◌,
  inl, inr, if◌then◌else◌, Integer, whole, minus, arith,
}
use cryptokorr.Effect.{Reply, answered, failed}
use cryptokorr.Config.Loading.{
  AdapterConfig, Loading, loaded, missing_variable, not_integer, invalid_operator, load_config,
}
use cryptokorr.Server.{
  IdentityError, metadata_mismatch, listening, is_number, select_base_chain, Host,
  compare_chain_ids, Tls, no_exit, tls_exit, both_read, assert_base_chain_identity, read_tls,
  load_tls_material, listen, build_and_listen, with_tls, after_identity, on_chain, with_signer,
  with_config, main,
}

-- The certificate and the key that are read from the two paths; none without paths.
pub data HasMaterial (host : Host) : Option Text → Option Text → Option (Text × Text) → Type 0 where
  no_paths : HasMaterial host none none none
  two_paths :
      (cert_path key_path cert key : Text)
      → host.read_file cert_path ≡ answered cert
      → host.read_file key_path ≡ answered key
      → HasMaterial host (some cert_path) (some key_path) (some (cert, key))

-- The chain of the configuration is one of Base, and both endpoints report it.
pub record IsOnBase (host : Host) (config : AdapterConfig) (chain : ℕ) : Type 0 where
  pub supported : (chain ≡ 8453) ⊎ (chain ≡ 84532)
  pub configured : config.base_chain_id ≡ whole chain
  pub rpc_reports : host.rpc_chain_id config ≡ answered chain
  pub bundler_reports : host.bundler_chain_id config ≡ answered chain

pub record IsStarted (host : Host) (config : AdapterConfig) (tls : Option (Text × Text))
    : Type 0 where
  pub from_environment : load_config host.env host.keys ≡ loaded config
  pub signer : host.is_private_key config.delegation_signer_key ≡ true
  pub on_base : (chain : ℕ) × IsOnBase host config chain
  pub material : HasMaterial host config.tls_cert_path config.tls_key_path tls

is_number-eq-suc : (x : Integer) (n : ℕ) → is_number x (suc n) ≡ true → x ≡ whole (suc n)
is_number-eq-suc (whole m) n h = ap whole (grind (arith, h))
is_number-eq-suc (minus zero) n h = ground (arith, h)
is_number-eq-suc (minus (suc m)) n h = cc

chosen-cases :
    (x : Integer) (chain : ℕ) (a b : Bool)
    → is_number x 8453 ≡ a
    → is_number x 84532 ≡ b
    → (if a then some 8453 else if b then some 84532 else none) ≡ some chain
    → (x ≡ whole chain) × ((chain ≡ 8453) ⊎ (chain ≡ 84532))
chosen-cases x chain true b p q h =
    let same : chain ≡ 8453 = cc in (is_number-eq-suc x 8452 p ∙ ap whole (sym same), inl same)
chosen-cases x chain false true p q h =
    let same : chain ≡ 84532 = cc in (is_number-eq-suc x 84531 q ∙ ap whole (sym same), inr same)
chosen-cases x chain false false p q h = cc

select_base_chain-cases :
    (x : Integer) (chain : ℕ)
    → select_base_chain x ≡ some chain
    → (x ≡ whole chain) × ((chain ≡ 8453) ⊎ (chain ≡ 84532))
unfolding select_base_chain
select_base_chain-cases x chain h = chosen-cases x chain _ _ refl refl h

compare_chain_ids-none :
    (n : ℕ) (public_id bundler_id : Reply ℕ)
    → compare_chain_ids (whole n) public_id bundler_id ≡ none
    → (public_id ≡ answered n) × (bundler_id ≡ answered n)
compare_chain_ids-none n (answered p) (answered b) h =
    (ap answered (ground (arith, h)), ap answered (ground (arith, h)))
compare_chain_ids-none n (answered p) (failed e) h = cc
compare_chain_ids-none n (failed e) b h = cc

then-eq-none :
    (b : Bool) (o : Option IdentityError) (e : IdentityError)
    → (if b then o else some e) ≡ none
    → o ≡ none
then-eq-none true o e h = h
then-eq-none false o e h = cc

identity-none :
    (x : Integer) (chain : ℕ) (public_id bundler_id : Reply ℕ)
    → x ≡ whole chain
    → (if is_number x chain
        then compare_chain_ids x public_id bundler_id
        else some metadata_mismatch)
      ≡ none
    → compare_chain_ids (whole chain) public_id bundler_id ≡ none
identity-none x chain public_id bundler_id e h =
    subst (λ y. compare_chain_ids y public_id bundler_id ≡ none) e
      (then-eq-none (is_number x chain) _ metadata_mismatch h)

same_material : (a b : Option (Text × Text)) → no_exit a ≡ no_exit b → a ≡ b
same_material a b h = cc

both_read-HasMaterial :
    {host : Host} {tls : Option (Text × Text)} (cert_path key_path : Text) (cert key : Reply Text)
    → host.read_file cert_path ≡ cert
    → host.read_file key_path ≡ key
    → both_read cert key ≡ no_exit tls
    → HasMaterial host (some cert_path) (some key_path) tls
both_read-HasMaterial {host} cert_path key_path (answered cert) (answered key) p q h =
    rw (same_material _ _ (sym h)) (two_paths cert_path key_path cert key p q)
both_read-HasMaterial cert_path key_path (answered cert) (failed e) p q h = cc
both_read-HasMaterial cert_path key_path (failed e) key p q h = cc

module _ (host : Host) (config : AdapterConfig) (tls : Option (Text × Text)) where
  read_tls-HasMaterial :
      (cert key : Option Text)
      → read_tls host cert key ≡ no_exit tls
      → HasMaterial host cert key tls
  read_tls-HasMaterial none none h = rw (same_material _ _ (sym h)) no_paths
  read_tls-HasMaterial (some cert) none h = cc
  read_tls-HasMaterial none (some key) h = cc
  read_tls-HasMaterial (some cert) (some key) h = both_read-HasMaterial cert key _ _ refl refl h

  assert_base_chain_identity-none :
      (chain : ℕ)
      → config.base_chain_id ≡ whole chain
      → assert_base_chain_identity host config chain ≡ none
      → (host.rpc_chain_id config ≡ answered chain)
        × (host.bundler_chain_id config ≡ answered chain)
  unfolding assert_base_chain_identity
  assert_base_chain_identity-none chain e h =
      compare_chain_ids-none chain _ _ (identity-none config.base_chain_id chain _ _ e h)

-- The end of `main` for a configuration `c`, when the adapter listens.
module _ (host : Host) (c config : AdapterConfig) (tls : Option (Text × Text)) where
  listen-eq-listening :
      (t : Option (Text × Text)) (b : Bool)
      → listen host c t b ≡ listening config tls
      → (c ≡ config) × (t ≡ tls)
  listen-eq-listening t true h = (cc, cc)
  listen-eq-listening t false h = cc

  build_and_listen-eq-listening :
      (t : Option (Text × Text)) (b : Bool)
      → build_and_listen host c t b ≡ listening config tls
      → (c ≡ config) × (t ≡ tls)
  build_and_listen-eq-listening t true h = listen-eq-listening t (host.listens c) h
  build_and_listen-eq-listening t false h = cc

  with_tls-eq-listening :
      (m : Tls) → with_tls host c m ≡ listening config tls → (c ≡ config) × (m ≡ no_exit tls)
  with_tls-eq-listening (no_exit t) h =
      let (e, f) = build_and_listen-eq-listening t (host.builds c t) h in (e, ap no_exit f)
  with_tls-eq-listening tls_exit h = cc

  after_identity-eq-listening :
      (o : Option IdentityError)
      → after_identity host c o ≡ listening config tls
      → (o ≡ none) × (c ≡ config) × (load_tls_material host c ≡ no_exit tls)
  unfolding after_identity
  after_identity-eq-listening none h =
      let (e, f) = with_tls-eq-listening (load_tls_material host c) h in (refl, e, f)
  after_identity-eq-listening (some error) h = cc

  material_of :
      load_tls_material host c ≡ no_exit tls → HasMaterial host c.tls_cert_path c.tls_key_path tls
  unfolding load_tls_material
  material_of h = read_tls-HasMaterial host c tls c.tls_cert_path c.tls_key_path h

  on_chain-IsStarted :
      (k : Option ℕ)
      → load_config host.env host.keys ≡ loaded c
      → host.is_private_key c.delegation_signer_key ≡ true
      → select_base_chain c.base_chain_id ≡ k
      → on_chain host c k ≡ listening config tls
      → IsStarted host config tls
  on_chain-IsStarted none l key p h = cc
  on_chain-IsStarted (some chain) l key p h =
      let (identity, same, material) = after_identity-eq-listening _ h in
      let (configured, supported) = select_base_chain-cases c.base_chain_id chain p in
      let (rpc, bundler) = assert_base_chain_identity-none host c tls chain configured identity in
      subst (λ d. IsStarted host d tls) same
        (record {
          from_environment = l;
          signer = key;
          on_base = (
            chain,
            record {
              supported = supported;
              configured = configured;
              rpc_reports = rpc;
              bundler_reports = bundler;
            },
          );
          material = material_of material;
        })

  with_signer-IsStarted :
      (b : Bool)
      → load_config host.env host.keys ≡ loaded c
      → host.is_private_key c.delegation_signer_key ≡ b
      → with_signer host c b ≡ listening config tls
      → IsStarted host config tls
  with_signer-IsStarted true l key h = on_chain-IsStarted _ l key refl h
  with_signer-IsStarted false l key h = cc

module _ (host : Host) (config : AdapterConfig) (tls : Option (Text × Text)) where
  with_config-IsStarted :
      (l : Loading AdapterConfig)
      → load_config host.env host.keys ≡ l
      → with_config host l ≡ listening config tls
      → IsStarted host config tls
  with_config-IsStarted (loaded c) l h = with_signer-IsStarted host c config tls _ l refl h
  with_config-IsStarted (missing_variable key) l h = cc
  with_config-IsStarted (not_integer key) l h = cc
  with_config-IsStarted (invalid_operator e) l h = cc

  -- If `main` gets to listen, it does so with the configuration of the environment, whose session
  -- key is a key; the configured chain is Base or Base Sepolia, and the RPC node and the bundler both
  -- report it; and the server has the certificate and key that were read from the two configured
  -- paths, or no TLS if neither path is configured.
  pub main-IsStarted : main host ≡ listening config tls → IsStarted host config tls
  unfolding main
  main-IsStarted h = with_config-IsStarted _ refl h
