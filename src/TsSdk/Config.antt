-- ===== src/TsSdk/Config.antt =====
-- sdks/typescript/src/config.ts: the client's configuration. `timeoutMs` is a whole number, and `fetch`
-- is part of the environment; `parseInt` gives a number that is not negative, or none.
pub mod Joined
use cryptokorr.Common.{
  ℕ, zero, suc, ◌==◌, ◌++◌, ◌≡◌, refl, Text, codes, begins_with, nonempty, or_else, Bool, true,
  false, Option, none, some, [], ◌∷◌, if◌then◌else◌,
}
use cryptokorr.TsSdk.Wire.{ResolvedConfig, parse_nonnegative}

abbrev pub default_base_url : Text
default_base_url = codes "http://localhost:4000"

abbrev pub default_timeout_ms : ℕ
default_timeout_ms = 15000

abbrev pub default_user_agent : Text
default_user_agent = codes "cryptokorr-js/0.1.0"

pub record ClientConfig : Type 0 where
  pub api_key : Text
  pub base_url : Option Text
  pub timeout_ms : Option ℕ
  pub user_agent : Option Text

pub data ConfigFailure : Type 0 where
  missing_api_key malformed_api_key invalid_timeout : ConfigFailure

pub data Resolved (A : Type 0) : Type 0 where
  accepted : A → Resolved A
  refused : ConfigFailure → Resolved A

abbrev pub all_slashes : Text → Bool
all_slashes [] = true
all_slashes (c ∷ s) = if c == b'/' then all_slashes s else false

-- `s.replace(/\/+$/, "")`
unfoldable pub strip_slashes : Text → Text
strip_slashes [] = []
strip_slashes (c ∷ s) = let rest = strip_slashes s in if all_slashes (c ∷ s) then [] else c ∷ rest

unfoldable pub resolve_config : ClientConfig → Resolved ResolvedConfig
unfolding strip_slashes
resolve_config input =
    let timeout_ms = or_else input.timeout_ms default_timeout_ms in
    if nonempty input.api_key
    then if begins_with (codes "cb_") input.api_key
      then if timeout_ms == 0
        then refused invalid_timeout
        else accepted (record {
          api_key = input.api_key;
          base_url = strip_slashes (or_else input.base_url default_base_url);
          timeout_ms = timeout_ms;
          user_agent = or_else input.user_agent default_user_agent;
        })
      else refused malformed_api_key
    else refused missing_api_key

-- The three environment variables.
pub record ProcessEnv : Type 0 where
  pub api_key : Option Text
  pub base_url : Option Text
  pub timeout_ms : Option Text

-- A variable that is set, and not to the empty text.
unfoldable pub set_variable : Option Text → Option Text
set_variable none = none
set_variable (some []) = none
set_variable (some (c ∷ s)) = some (c ∷ s)

unfoldable pub parse_timeout : Option Text → Resolved (Option ℕ)
unfolding parse_nonnegative
parse_timeout none = accepted none
parse_timeout (some value) = elim (parse_nonnegative value) [
  | none ↦ refused invalid_timeout
  | some zero ↦ refused invalid_timeout
  | some (suc n) ↦ accepted (some (suc n))
]

unfoldable pub read_config_from_env : ProcessEnv → Resolved ClientConfig
unfolding set_variable parse_timeout
read_config_from_env env = elim (set_variable env.api_key) [
  | none ↦ refused missing_api_key
  | some api_key ↦ elim (parse_timeout (set_variable env.timeout_ms)) [
    | refused failure ↦ refused failure
    | accepted timeout_ms ↦ accepted (record {
      api_key = api_key;
      base_url = set_variable env.base_url;
      timeout_ms = timeout_ms;
      user_agent = none;
    })
  ]
]
