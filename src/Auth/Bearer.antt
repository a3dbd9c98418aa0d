-- ===== src/Auth/Bearer.antt =====
-- Who passes the check: whoever presents the secret, and nobody else.
use cryptokorr.Common.{
  Text, codes, text_eq, text_eq_refl, text_eq_iff, nonempty, ◌≡◌, refl, ap, ◌∙◌, ◌↔◌, Bool, true,
  false, ◌&&◌, &&-eq-true, Option, none, some, [], ◌∷◌, ◌++◌, arith, if◌then◌else◌,
}
use cryptokorr.Config.Assets.{before, after}
use cryptokorr.Auth.{
  rest_of, split_bearer, constant_time_equals, check_bearer, check_header, verify_dispatch_auth,
}

-- A text with something after its first space is put together again from the two parts.
split_bearer-join :
    (s : Text)
    → nonempty (split_bearer s).1 ≡ true
    → s ≡ (split_bearer s).0 ++ b' ' ∷ (split_bearer s).1
unfolding split_bearer before after rest_of
split_bearer-join [] h = cc
split_bearer-join (c ∷ s) h = ground (arith, split_bearer-join s)

if-eq-none :
    {A : Type 0} (b : Bool) (x : Option A) (e : A)
    → (if b then x else some e) ≡ none
    → (b ≡ true) × (x ≡ none)
if-eq-none true x e h = (refl, h)
if-eq-none false x e h = cc

module _ (sha256 : Text → Text) (secret : Text)
    (no_collision : (token : Text) → sha256 token ≡ sha256 secret → token ≡ secret) where
  presented :
      (header : Option Text)
      → check_header sha256 secret header ≡ none
      → header ≡ some (codes "Bearer " ++ secret)
  unfolding check_header check_bearer constant_time_equals
  presented none h = cc
  presented (some s) h =
      let (full, h₁) = if-eq-none (nonempty s) _ _ h in
      let (framed, h₂) =
        if-eq-none (text_eq (split_bearer s).0 (codes "Bearer") && nonempty (split_bearer s).1) _ _
          h₁ in
      let (equal, h₃) = if-eq-none (text_eq (sha256 (split_bearer s).1) (sha256 secret)) _ _ h₂ in
      let (scheme, token) =
        &&-eq-true (text_eq (split_bearer s).0 (codes "Bearer")) (nonempty (split_bearer s).1)
          framed in
      let same =
        no_collision (split_bearer s).1
          ((text_eq_iff (sha256 (split_bearer s).1) (sha256 secret)).0 equal) in
      ap some (
        split_bearer-join s token
        ∙ rw (same, (text_eq_iff (split_bearer s).0 (codes "Bearer")).0 scheme))

  accepted :
      nonempty secret ≡ true → check_header sha256 secret (some (codes "Bearer " ++ secret)) ≡ none
  unfolding check_header check_bearer constant_time_equals split_bearer before after rest_of text_eq
  accepted h = rw (h, text_eq_refl (sha256 secret))

  -- If no other text has the hash of the secret, a request passes exactly when a secret is configured
  -- and the header is `Bearer`, one space and the secret.
  pub verify_dispatch_auth_iff :
      (header : Option Text)
      → (verify_dispatch_auth sha256 secret header ≡ none)
        ↔ ((nonempty secret ≡ true) × (header ≡ some (codes "Bearer " ++ secret)))
  unfolding verify_dispatch_auth
  verify_dispatch_auth_iff header = (
    λ h.
        let (configured, h₁) = if-eq-none (nonempty secret) _ _ h in
        (configured, presented header h₁),
    λ x. rw (x.0, x.1) (accepted x.0),
  )
