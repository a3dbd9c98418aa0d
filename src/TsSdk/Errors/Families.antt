-- ===== src/TsSdk/Errors/Families.antt =====
-- What an `instanceof` check of an error means in terms of the response.
use cryptokorr.Common.{
  ℕ, zero, suc, ◌==◌, Text, codes, text_eq, text_eq_sound, begins_with, ◌≡◌, refl, inl, inr, Bool,
  true, false, Bool-cases, ◌||◌, ◌&&◌, none, some, [], ◌∷◌, arith,
}
use cryptokorr.TsSdk.Errors.{
  ErrorClass, api_error, authentication_error, authorization_error, not_found_error,
  validation_error, swap_safety_error, morpho_safety_error, conflict_error,
  idempotency_conflict_error, wrong_state_error, rate_limit_error, service_unavailable_error,
  workspace_paused_error, chain_paused_error, upstream_error, parent, classify_error,
}

unfoldable class_number : ErrorClass → ℕ
class_number api_error = 0
class_number authentication_error = 1
class_number authorization_error = 2
class_number not_found_error = 3
class_number validation_error = 4
class_number swap_safety_error = 5
class_number morpho_safety_error = 6
class_number conflict_error = 7
class_number idempotency_conflict_error = 8
class_number wrong_state_error = 9
class_number rate_limit_error = 10
class_number service_unavailable_error = 11
class_number workspace_paused_error = 12
class_number chain_paused_error = 13
class_number upstream_error = 14

-- `error instanceof class`, along at most `n` links of the chain of parents.
unfoldable pub is_instance : ℕ → ErrorClass → ErrorClass → Bool
unfolding class_number parent
is_instance zero c d = class_number c == class_number d
is_instance (suc n) c d =
    class_number c == class_number d
    || elim (parent c) [ none ↦ false | some p ↦ is_instance n p d ]

-- The responses that a class stands for.
unfoldable pub stands_for : ErrorClass → ℕ → Text → Bool
stands_for api_error status code = true
stands_for authentication_error status code = status == 401
stands_for authorization_error status code = status == 403
stands_for not_found_error status code = status == 404
stands_for validation_error status code = status == 422
stands_for swap_safety_error status code = status == 422 && begins_with (codes "swap_") code
stands_for morpho_safety_error status code = status == 422 && begins_with (codes "morpho_") code
stands_for conflict_error status code = status == 409
stands_for idempotency_conflict_error status code =
    status == 409 && text_eq code (codes "idempotency_conflict")
stands_for wrong_state_error status code =
    status == 409
    && (text_eq code (codes "wrong_state") || text_eq code (codes "not_safe_to_abort"))
stands_for rate_limit_error status code = status == 429
stands_for service_unavailable_error status code = status == 502 || status == 503 || status == 504
stands_for workspace_paused_error status code =
    status == 503 && text_eq code (codes "workspace_paused")
stands_for chain_paused_error status code = status == 503 && text_eq code (codes "chain_paused")
stands_for upstream_error status code =
    status == 502 || status == 504 || (status == 503 && text_eq code (codes "upstream_unavailable"))

-- A code has one spelling, and one prefix.
text_eq_other :
    (code s t : Text) → text_eq s t ≡ false → text_eq code s ≡ true → text_eq code t ≡ false
text_eq_other code s t d e = rw (text_eq_sound code s e) d

conflict_not_state :
    (code : Text)
    → text_eq code (codes "idempotency_conflict") ≡ true
    → (text_eq code (codes "wrong_state") || text_eq code (codes "not_safe_to_abort")) ≡ false
unfolding text_eq
conflict_not_state code e =
    let s = codes "idempotency_conflict" in
    rw
      (
        text_eq_other code s (codes "wrong_state") refl e,
        text_eq_other code s (codes "not_safe_to_abort") refl e,
      )
      refl

workspace_not_chain :
    (code : Text)
    → text_eq code (codes "workspace_paused") ≡ true
    → text_eq code (codes "chain_paused") ≡ false
unfolding text_eq
workspace_not_chain code e =
    text_eq_other code (codes "workspace_paused") (codes "chain_paused") refl e

workspace_not_upstream :
    (code : Text)
    → text_eq code (codes "workspace_paused") ≡ true
    → text_eq code (codes "upstream_unavailable") ≡ false
unfolding text_eq
workspace_not_upstream code e =
    text_eq_other code (codes "workspace_paused") (codes "upstream_unavailable") refl e

chain_not_upstream :
    (code : Text)
    → text_eq code (codes "chain_paused") ≡ true
    → text_eq code (codes "upstream_unavailable") ≡ false
unfolding text_eq
chain_not_upstream code e =
    text_eq_other code (codes "chain_paused") (codes "upstream_unavailable") refl e

swap_not_morpho :
    (code : Text)
    → begins_with (codes "swap_") code ≡ true
    → begins_with (codes "morpho_") code ≡ false
unfolding begins_with
swap_not_morpho [] h = refl
swap_not_morpho (c ∷ s) h = ground arith

-- The class of an error tells the response apart: for each class, the error of a response with this
-- status and code is an `instanceof` the class exactly if the class stands for such a response, as
-- `stands_for` lists it.
pub classify_error-family :
    (status : ℕ) (code : Text) (class : ErrorClass)
    → is_instance 2 (classify_error status code) class ≡ stands_for class status code
unfolding classify_error is_instance class_number parent stands_for
classify_error-family status code api_error = ground arith
classify_error-family status code authentication_error = ground arith
classify_error-family status code authorization_error = ground arith
classify_error-family status code not_found_error = ground arith
classify_error-family status code validation_error = ground arith
classify_error-family status code swap_safety_error = ground arith
classify_error-family status code conflict_error = ground arith
classify_error-family status code idempotency_conflict_error = ground arith
classify_error-family status code rate_limit_error = ground arith
classify_error-family status code service_unavailable_error = ground arith
classify_error-family status code workspace_paused_error = ground arith
classify_error-family status code morpho_safety_error =
    elim (Bool-cases (begins_with (codes "swap_") code)) [
      | inl e ↦ let d = swap_not_morpho code e in ground arith
      | inr e ↦ ground arith
    ]
classify_error-family status code wrong_state_error =
    elim (Bool-cases (text_eq code (codes "idempotency_conflict"))) [
      | inl e ↦ let d = conflict_not_state code e in ground arith
      | inr e ↦ ground arith
    ]
classify_error-family status code chain_paused_error =
    elim (Bool-cases (text_eq code (codes "workspace_paused"))) [
      | inl e ↦ let d = workspace_not_chain code e in ground arith
      | inr e ↦ ground arith
    ]
classify_error-family status code upstream_error =
    elim (Bool-cases (text_eq code (codes "workspace_paused"))) [
      | inl e ↦ let d = workspace_not_upstream code e in ground arith
      | inr e ↦ elim (Bool-cases (text_eq code (codes "chain_paused"))) [
        | inl e' ↦ let d = chain_not_upstream code e' in ground arith
        | inr e' ↦ ground arith
      ]
    ]
