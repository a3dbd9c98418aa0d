-- ===== src/Config/Loading/Sound.antt =====
-- chain_adapter/src/config/index.ts: what `loadConfig` returns or throws, and why.
use cryptokorr.Common.{
  Text, codes, text_eq, any, List, nonempty, or_else, ◌≡◌, refl, true, false, Option, none, some,
  [], ◌∷◌, Integer, whole, parse_int,
}
use cryptokorr.Config.Operator.{
  Keys, ConfigError, OperatorSigner, absent, operator, invalid, read_operator_signer,
}
use cryptokorr.Config.Operator.Separation.{IsOperator, read_operator_signer_iff}
use cryptokorr.Config.Loading.{
  AdapterConfig, Loading, loaded, missing_variable, not_integer, invalid_operator, ◌>>=◌,
  operator_pair, pair_key, pair_address, optional_string, required, optional, optional_int,
  load_config,
}

-- No operator while both variables are empty or unset, or the pair that they stand for.
pub data HasOperatorPair (keys : Keys) (session_key raw_key raw_address : Text)
    : Option (Text × Text) → Type 0 where
  no_pair :
      nonempty raw_key ≡ false
      → nonempty raw_address ≡ false
      → HasOperatorPair keys session_key raw_key raw_address none
  with_pair :
      (key address : Text)
      → IsOperator keys raw_key raw_address session_key key address
      → HasOperatorPair keys session_key raw_key raw_address (some (key, address))

-- The variables without which the adapter does not start, and those that hold an integer.
abbrev pub required_names : List Text
required_names =
    codes "DELEGATION_SIGNER_KEY"
    ∷ codes "ADAPTER_DISPATCH_SECRET"
    ∷ codes "PHOENIX_BASE_URL"
    ∷ codes "ADAPTER_CALLBACK_SECRET"
    ∷ codes "BASE_RPC_URL"
    ∷ codes "BUNDLER_RPC_URL"
    ∷ codes "SMART_ACCOUNT_ADDRESS"
    ∷ codes "USDC_CONTRACT_ADDRESS"
    ∷ []

abbrev pub integer_names : List Text
integer_names = codes "PORT" ∷ codes "BASE_CHAIN_ID" ∷ codes "CONTRACT_VERSION" ∷ []

abbrev pub IsOneOf : List Text → Text → Type 0
IsOneOf names key = any (λ name. text_eq name key) names ≡ true

module _ (env : Text → Option Text) (keys : Keys) where
  -- The variable is set to a text that is not empty, and this is the text.
  pub record IsSetTo (key value : Text) : Type 0 where
    pub set_to : env key ≡ some value
    pub not_empty : nonempty value ≡ true

  -- The variable is unset or empty.
  abbrev pub IsUnset : Text → Type 0
  IsUnset key = nonempty (or_else (env key) []) ≡ false

  pub data IsIntegerOf (key : Text) (fallback : Integer) : Integer → Type 0 where
    by_default : IsUnset key → IsIntegerOf key fallback fallback
    by_text :
        (raw : Text) (n : Integer)
        → IsSetTo key raw
        → parse_int raw ≡ some n
        → IsIntegerOf key fallback n

  pub data IsTextOf (key fallback : Text) : Text → Type 0 where
    fallback_text : IsUnset key → IsTextOf key fallback fallback
    set_text : (value : Text) → IsSetTo key value → IsTextOf key fallback value

  pub data IsOptionOf (key : Text) : Option Text → Type 0 where
    no_text : IsUnset key → IsOptionOf key none
    one_text : (value : Text) → IsSetTo key value → IsOptionOf key (some value)

  abbrev pub raw_of : Text → Text
  raw_of key = or_else (env key) []

  -- Where each field of a loaded configuration comes from.
  pub record IsLoadedFrom (cfg : AdapterConfig) : Type 0 where
    pub session_key : IsSetTo (codes "DELEGATION_SIGNER_KEY") cfg.delegation_signer_key
    pub operator_keys :
        (pair : Option (Text × Text)) × (HasOperatorPair keys cfg.delegation_signer_key
          (raw_of (codes "OPERATOR_PRIVATE_KEY"))
          (raw_of (codes "OPERATOR_ADDRESS"))
          pair)
        × (cfg.operator_private_key ≡ pair_key pair)
        × (cfg.operator_address ≡ pair_address pair)
    pub port_number : IsIntegerOf (codes "PORT") (whole 4100) cfg.port
    pub host_name : IsTextOf (codes "HOST") (codes "0.0.0.0") cfg.host
    pub tls_cert : IsOptionOf (codes "ADAPTER_TLS_CERT_PATH") cfg.tls_cert_path
    pub tls_key : IsOptionOf (codes "ADAPTER_TLS_KEY_PATH") cfg.tls_key_path
    pub entry_point :
        IsTextOf
          (codes "ENTRY_POINT_ADDRESS")
          (codes "0x0000000071727De22E5E9d8BAf0edAc6f37da032")
          cfg.entry_point_address
    pub dispatch_secret : IsSetTo (codes "ADAPTER_DISPATCH_SECRET") cfg.dispatch_auth_secret
    pub phoenix_url : IsSetTo (codes "PHOENIX_BASE_URL") cfg.phoenix_base_url
    pub callback_secret : IsSetTo (codes "ADAPTER_CALLBACK_SECRET") cfg.callback_auth_secret
    pub rpc_url : IsSetTo (codes "BASE_RPC_URL") cfg.base_rpc_url
    pub chain_id : IsIntegerOf (codes "BASE_CHAIN_ID") (whole 8453) cfg.base_chain_id
    pub bundler_url : IsSetTo (codes "BUNDLER_RPC_URL") cfg.bundler_rpc_url
    pub account : IsSetTo (codes "SMART_ACCOUNT_ADDRESS") cfg.smart_account_address
    pub usdc : IsSetTo (codes "USDC_CONTRACT_ADDRESS") cfg.usdc_contract_address
    pub version : IsIntegerOf (codes "CONTRACT_VERSION") (whole 1) cfg.contract_version

  -- A result, or an error together with its cause.
  pub data Explained {A : Type 0} (P : A → Type 0) : Loading A → Type 0 where
    as_loaded : (a : A) → P a → Explained P (loaded a)
    as_missing :
        (key : Text) → IsOneOf required_names key → IsUnset key → Explained P (missing_variable key)
    as_not_integer :
        (key raw : Text)
        → IsOneOf integer_names key
        → IsSetTo key raw
        → parse_int raw ≡ none
        → Explained P (not_integer key)
    as_invalid :
        (e : ConfigError) (session_key : Text)
        → IsSetTo (codes "DELEGATION_SIGNER_KEY") session_key
        → read_operator_signer keys
            (env (codes "OPERATOR_PRIVATE_KEY"))
            (env (codes "OPERATOR_ADDRESS"))
            session_key
          ≡ invalid e
        → Explained P (invalid_operator e)

  bind-Explained :
      {A B : Type 0} {P : A → Type 0} {Q : B → Type 0} {m : Loading A} {f : A → Loading B}
      → Explained P m
      → ((a : A) → P a → Explained Q (f a))
      → Explained Q (m >>= f)
  unfolding ◌>>=◌
  bind-Explained (as_loaded a p) k = k a p
  bind-Explained (as_missing key r u) k = as_missing key r u
  bind-Explained (as_not_integer key raw r s n) k = as_not_integer key raw r s n
  bind-Explained (as_invalid e session_key s i) k = as_invalid e session_key s i

  set-cases :
      (key : Text) (P : Option Text → Type 0) (o : Option Text)
      → env key ≡ o
      → (IsUnset key → P none)
      → ((value : Text) → IsSetTo key value → P (some value))
      → P (elim o [ none ↦ none | some [] ↦ none | some (c ∷ s) ↦ some (c ∷ s) ])
  set-cases key P none h unset set = unset (rw h refl)
  set-cases key P (some []) h unset set = unset (rw h refl)
  set-cases key P (some (c ∷ s)) h unset set = set (c ∷ s) (record { set_to = h; not_empty = refl })

  -- The two answers of `optionalString`.
  optional_string-cases :
      (key : Text) (P : Option Text → Type 0)
      → (IsUnset key → P none)
      → ((value : Text) → IsSetTo key value → P (some value))
      → P (optional_string env key)
  unfolding optional_string
  optional_string-cases key P unset set = set-cases key P (env key) refl unset set

  optional_string-IsOptionOf : (key : Text) → IsOptionOf key (optional_string env key)
  optional_string-IsOptionOf key = optional_string-cases key (IsOptionOf key) no_text one_text

  optional-IsTextOf : (key fallback : Text) → IsTextOf key fallback (optional env key fallback)
  unfolding optional
  optional-IsTextOf key fallback =
      optional_string-cases key (λ o. IsTextOf key fallback (or_else o fallback)) fallback_text
        set_text

  required-Explained :
      (key : Text) → IsOneOf required_names key → Explained (IsSetTo key) (required env key)
  unfolding required
  required-Explained key r =
      optional_string-cases key
        (λ o.
          Explained (IsSetTo key)
            (elim o [ none ↦ missing_variable key | some value ↦ loaded value ]))
        (λ u. as_missing key r u) (λ value s. as_loaded value s)

  parsed-Explained :
      (key raw : Text) (fallback : Integer) (o : Option Integer)
      → IsOneOf integer_names key
      → IsSetTo key raw
      → parse_int raw ≡ o
      → Explained (IsIntegerOf key fallback) (elim o [ none ↦ not_integer key | some n ↦ loaded n ])
  parsed-Explained key raw fallback none r s h = as_not_integer key raw r s h
  parsed-Explained key raw fallback (some n) r s h = as_loaded n (by_text raw n s h)

  optional_int-Explained :
      (key : Text) (fallback : Integer)
      → IsOneOf integer_names key
      → Explained (IsIntegerOf key fallback) (optional_int env key fallback)
  unfolding optional_int
  optional_int-Explained key fallback r =
      optional_string-cases key
        (λ o. Explained (IsIntegerOf key fallback) (elim o [
          | none ↦ loaded fallback
          | some raw ↦ elim (parse_int raw) [ none ↦ not_integer key | some n ↦ loaded n ]
        ]))
        (λ u. as_loaded fallback (by_default u))
        (λ raw s. parsed-Explained key raw fallback (parse_int raw) r s refl)

  operator_pair-Explained :
      (session_key : Text) (signer : OperatorSigner)
      → IsSetTo (codes "DELEGATION_SIGNER_KEY") session_key
      → read_operator_signer keys
          (env (codes "OPERATOR_PRIVATE_KEY"))
          (env (codes "OPERATOR_ADDRESS"))
          session_key
        ≡ signer
      → Explained
          (HasOperatorPair keys session_key
            (raw_of (codes "OPERATOR_PRIVATE_KEY"))
            (raw_of (codes "OPERATOR_ADDRESS")))
          (operator_pair signer)
  unfolding operator_pair
  operator_pair-Explained session_key absent s h =
      let (k, a) = (read_operator_signer_iff keys _ _ session_key).1 h in
      as_loaded none (no_pair k a)
  operator_pair-Explained session_key (operator key address) s h =
      as_loaded (some (key, address)) (
        with_pair key address (((read_operator_signer_iff keys _ _ session_key).0 key address).0 h))
  operator_pair-Explained session_key (invalid e) s h = as_invalid e session_key s h

  -- `loadConfig` either returns a configuration in which every required field is the text of its
  -- variable and not empty, every other field is that of its variable, or the default if that is
  -- unset or empty, and the operator is absent with both variables unset or is the well-formed pair
  -- apart from the session key; or it throws for one of the required variables that is unset or
  -- empty, for one of the numbers that is set to no integer, or with the error of `readOperatorSigner`.
  pub load_config-Explained : Explained IsLoadedFrom (load_config env keys)
  unfolding load_config text_eq
  load_config-Explained =
      bind-Explained (required-Explained (codes "DELEGATION_SIGNER_KEY") refl) (λ session_key h₁.
        bind-Explained (operator_pair-Explained session_key _ h₁ refl) (λ pair h₂.
          bind-Explained (optional_int-Explained (codes "PORT") (whole 4100) refl) (λ port h₃.
            bind-Explained (required-Explained (codes "ADAPTER_DISPATCH_SECRET") refl)
              (λ dispatch h₄.
                bind-Explained (required-Explained (codes "PHOENIX_BASE_URL") refl) (λ phoenix h₅.
                  bind-Explained (required-Explained (codes "ADAPTER_CALLBACK_SECRET") refl)
                    (λ callback h₆.
                      bind-Explained (required-Explained (codes "BASE_RPC_URL") refl) (λ rpc h₇.
                        bind-Explained
                          (optional_int-Explained (codes "BASE_CHAIN_ID") (whole 8453) refl)
                          (λ chain h₈.
                            bind-Explained (required-Explained (codes "BUNDLER_RPC_URL") refl)
                              (λ bundler h₉.
                                bind-Explained
                                  (required-Explained (codes "SMART_ACCOUNT_ADDRESS") refl)
                                  (λ account_text i₁.
                                    bind-Explained
                                      (required-Explained (codes "USDC_CONTRACT_ADDRESS") refl)
                                      (λ usdc_text i₂.
                                        bind-Explained
                                          (optional_int-Explained (codes "CONTRACT_VERSION")
                                            (whole 1) refl)
                                          (λ contract i₃. as_loaded _ (record {
                                            session_key = h₁;
                                            operator_keys = (pair, h₂, refl, refl);
                                            port_number = h₃;
                                            host_name = optional-IsTextOf _ _;
                                            tls_cert = optional_string-IsOptionOf _;
                                            tls_key = optional_string-IsOptionOf _;
                                            entry_point = optional-IsTextOf _ _;
                                            dispatch_secret = h₄;
                                            phoenix_url = h₅;
                                            callback_secret = h₆;
                                            rpc_url = h₇;
                                            chain_id = h₈;
                                            bundler_url = h₉;
                                            account = i₁;
                                            usdc = i₂;
                                            version = i₃;
                                          })))))))))))))
