-- ===== src/TsSdk/Config/Joined.antt =====
-- The configured base URL, and the URLs that requests are sent to.
use cryptokorr.Common.{
  ℕ, ◌==◌, ◌≡◌, ◌<◌, refl, Text, codes, begins_with, nonempty, or_else, Bool, true, false,
  Bool-cases, inl, inr, not, [], ◌∷◌, if◌then◌else◌, arith,
}
use cryptokorr.TsSdk.Wire.{ResolvedConfig}
use cryptokorr.TsSdk.Config.{
  ClientConfig, accepted, refused, invalid_timeout, malformed_api_key, missing_api_key,
  default_timeout_ms, default_base_url, all_slashes, strip_slashes, resolve_config,
}

-- A text that does not end in a slash.
abbrev pub no_slash_at_end : Text → Bool
no_slash_at_end [] = true
no_slash_at_end (c ∷ []) = not (c == b'/')
no_slash_at_end (c ∷ d ∷ s) = no_slash_at_end (d ∷ s)

cons_not_empty : (c : ℕ) (s : Text) → (c ∷ s) ≡ [] → ⊥
cons_not_empty c s e = cc

no_slash-cons :
    (c : ℕ) (r : Text)
    → no_slash_at_end r ≡ true
    → (r ≡ [] → not (c == b'/') ≡ true)
    → no_slash_at_end (c ∷ r) ≡ true
no_slash-cons c [] h k = k refl
no_slash-cons c (d ∷ s) h k = h

strip_slashes-empty : (s : Text) → strip_slashes s ≡ [] → all_slashes s ≡ true
unfolding strip_slashes
strip_slashes-empty [] e = refl
strip_slashes-empty (c ∷ s) e = elim (Bool-cases (all_slashes (c ∷ s))) [
  | inl h ↦ h
  | inr h ↦ absurd (cons_not_empty c (strip_slashes s) (rw h at e))
]

strip_slashes-no_slash : (s : Text) → no_slash_at_end (strip_slashes s) ≡ true
unfolding strip_slashes
strip_slashes-no_slash [] = refl
strip_slashes-no_slash (c ∷ s) = elim (Bool-cases (all_slashes (c ∷ s))) [
  | inl h ↦ rw h refl
  | inr h ↦ rw h (
      no_slash-cons c (strip_slashes s) (strip_slashes-no_slash s)
        (λ e. let a = strip_slashes-empty s e in ground arith))
]

-- What the rest of the SDK relies on.
pub record IsUsable (cfg : ResolvedConfig) : Type 0 where
  pub api_key : begins_with (codes "cb_") cfg.api_key ≡ true
  pub base_url : no_slash_at_end cfg.base_url ≡ true
  pub timeout : 0 < cfg.timeout_ms

usable :
    (a b c : Bool) (x cfg : ResolvedConfig)
    → (if a
        then if b
          then if c then refused invalid_timeout else accepted x
          else refused malformed_api_key
        else refused missing_api_key)
      ≡ accepted cfg
    → (b ≡ true) × (c ≡ false) × (cfg ≡ x)
usable false b c x cfg e = cc
usable true false c x cfg e = cc
usable true true true x cfg e = cc
usable true true false x cfg e = (refl, refl, cc)

-- A configuration that `resolveConfig` accepts has a key of the form `cb_...`, a base URL that does not
-- end in a slash, and a positive timeout.
pub resolve_config-IsUsable :
    (input : ClientConfig) (cfg : ResolvedConfig)
    → resolve_config input ≡ accepted cfg
    → IsUsable cfg
unfolding resolve_config
resolve_config-IsUsable input cfg e =
    let t = or_else input.timeout_ms default_timeout_ms in
    let (key, time, same) = usable (nonempty input.api_key) _ (t == 0) _ cfg e in
    rw same (record {
      api_key = key;
      base_url = strip_slashes-no_slash (or_else input.base_url default_base_url);
      timeout = ground arith;
    })
