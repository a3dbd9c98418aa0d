-- ===== src/Config/Operator/Separation.antt =====
-- Which pairs `readOperatorSigner` accepts.
use cryptokorr.Common.{
  ◌==◌, Text, text_eq, text_eq_iff, nonempty, length, or_else, not, ◌≡◌, ◌≢◌, refl, ap, sym, subst,
  ◌∙◌, ◌↔◌, Bool, true, false, ◌||◌, &&-eq-true, Option, none, some, [], arith, if◌then◌else◌,
}
use cryptokorr.Config.Operator.{
  Keys, ConfigError, OperatorSigner, absent, operator, invalid, placeholder_value, malformed_key,
  malformed_address, address_mismatch, role_conflation, is_placeholder, or_invalid, is_key,
  keep_apart, refuse_conflation, check_derived, validate_operator, by_presence,
  read_operator_signer,
}

-- What makes a pair of texts the operator's signer, next to a session key.
pub record IsOperator (keys : Keys) (raw_key raw_address session_key key address : Text)
    : Type 0 where
  pub same_key : key ≡ raw_key
  pub same_address : address ≡ keys.get_address raw_address
  pub key_set : nonempty raw_key ≡ true
  pub address_set : nonempty raw_address ≡ true
  pub key_real : is_placeholder raw_key ≡ false
  pub address_real : is_placeholder raw_address ≡ false
  pub key_hex : keys.is_hex raw_key ≡ true
  pub key_length : length raw_key ≡ 66
  pub address_valid : keys.is_address raw_address ≡ true
  pub derived : keys.address_of key ≡ some address
  pub separate :
      keys.is_hex session_key ≡ true
      → length session_key ≡ 66
      → (session_address : Text) × (keys.address_of session_key ≡ some session_address)
        × (session_address ≢ address)

or_invalid-eq-operator :
    (b : Bool) (e : ConfigError) (s : OperatorSigner) {key address : Text}
    → or_invalid b e s ≡ operator key address
    → (b ≡ true) × (s ≡ operator key address)
or_invalid-eq-operator true e s h = (refl, h)
or_invalid-eq-operator false e s h = cc

abbrev key_of : OperatorSigner → Text
key_of absent = []
key_of (operator key address) = key
key_of (invalid e) = []

abbrev address_of : OperatorSigner → Text
address_of absent = []
address_of (operator key address) = address
address_of (invalid e) = []

by_presence-eq-operator :
    (k a : Bool) (s : OperatorSigner) {key address : Text}
    → by_presence k a s ≡ operator key address
    → (k ≡ true) × (a ≡ true) × (s ≡ operator key address)
by_presence-eq-operator false false s h = cc
by_presence-eq-operator true false s h = cc
by_presence-eq-operator false true s h = cc
by_presence-eq-operator true true s h = (refl, refl, h)

by_presence-eq-absent :
    (k a : Bool) (s : OperatorSigner)
    → s ≢ absent
    → by_presence k a s ≡ absent
    → (k ≡ false) × (a ≡ false)
by_presence-eq-absent false false s n h = (refl, refl)
by_presence-eq-absent true false s n h = cc
by_presence-eq-absent false true s n h = cc
by_presence-eq-absent true true s n h = absurd (n h)

text_eq_apart : (a b : Text) → a ≢ b → text_eq a b ≡ false
text_eq_apart a b n = ground (arith, n, text_eq_iff a b)

module _ (keys : Keys) where
  -- The session key stands for another account, if it is a key at all.
  abbrev IsSeparate : Text → Text → Type 0
  IsSeparate session_key address =
      keys.is_hex session_key ≡ true
      → length session_key ≡ 66
      → (session_address : Text) × (keys.address_of session_key ≡ some session_address)
        × (session_address ≢ address)

  is_key_iff :
      (key : Text) → (is_key keys key ≡ true) ↔ ((keys.is_hex key ≡ true) × (length key ≡ 66))
  unfolding is_key
  is_key_iff key = (
    λ h. ((&&-eq-true (keys.is_hex key) (length key == 66) h).0, ground (arith, h)),
    λ h. ground (arith, h.0, h.1),
  )

  keep_apart-eq-operator :
      (o : Option Text) (k a : Text) {key address : Text}
      → keep_apart keys o k a ≡ operator key address
      → (k ≡ key) × (a ≡ address) × ((other : Text) × (o ≡ some other) × (other ≢ a))
  keep_apart-eq-operator none k a h = cc
  keep_apart-eq-operator (some other) k a h =
      let (b, e) =
        or_invalid-eq-operator (not (text_eq other a)) role_conflation (operator k a) h in
      (ap key_of e, ap address_of e, (other, refl, λ z. ground (arith, b, text_eq_iff other a, z)))

  refuse_conflation-eq-operator :
      (b : Bool) (o : Option Text) (k a : Text) {key address : Text}
      → (if b then keep_apart keys o k a else operator k a) ≡ operator key address
      → (k ≡ key) × (a ≡ address) × (b ≡ true → (other : Text) × (o ≡ some other) × (other ≢ a))
  refuse_conflation-eq-operator true o k a h =
      let (e, f, g) = keep_apart-eq-operator o k a h in (e, f, λ _. g)
  refuse_conflation-eq-operator false o k a h = (ap key_of h, ap address_of h, λ e. cc)

  check_derived-eq-operator :
      (o : Option Text) (session_key k a : Text) {key address : Text}
      → check_derived keys o session_key k a ≡ operator key address
      → (k ≡ key) × (a ≡ address) × (o ≡ some a) × IsSeparate session_key a
  unfolding refuse_conflation
  check_derived-eq-operator none session_key k a h = cc
  check_derived-eq-operator (some derived) session_key k a h =
      let (b, e) = or_invalid-eq-operator (text_eq derived a) address_mismatch _ h in
      let (p, q, r) = refuse_conflation-eq-operator (is_key keys session_key) _ k a e in
      (p, q, ap some ((text_eq_iff derived a).0 b), λ x l. r ((is_key_iff session_key).1 (x, l)))

  validate_operator_sound :
      (raw_key raw_address session_key key address : Text)
      → nonempty raw_key ≡ true
      → nonempty raw_address ≡ true
      → validate_operator keys raw_key raw_address session_key ≡ operator key address
      → IsOperator keys raw_key raw_address session_key key address
  unfolding validate_operator
  validate_operator_sound raw_key raw_address session_key key address k a h =
      let (b₁, h₁) =
        or_invalid-eq-operator (not (is_placeholder raw_key || is_placeholder raw_address))
          placeholder_value _ h in
      let (b₂, h₂) = or_invalid-eq-operator (is_key keys raw_key) malformed_key _ h₁ in
      let (b₃, h₃) = or_invalid-eq-operator (keys.is_address raw_address) malformed_address _ h₂ in
      let (p, q, r, apart) =
        check_derived-eq-operator (keys.address_of raw_key) session_key raw_key
          (keys.get_address raw_address) h₃ in
      let (hex, len) = (is_key_iff raw_key).0 b₂ in
      record {
        same_key = sym p;
        same_address = sym q;
        key_set = k;
        address_set = a;
        key_real = ground (arith, b₁);
        address_real = ground (arith, b₁);
        key_hex = hex;
        key_length = len;
        address_valid = b₃;
        derived = ap keys.address_of (sym p) ∙ r ∙ ap some q;
        separate = subst (IsSeparate session_key) q apart;
      }

  or_invalid_present :
      (b : Bool) (e : ConfigError) (s : OperatorSigner) → s ≢ absent → or_invalid b e s ≢ absent
  or_invalid_present true e s n h = n h
  or_invalid_present false e s n h = cc

  operator_present : {key address : Text} → operator key address ≢ absent
  operator_present h = cc

  invalid_present : {e : ConfigError} → invalid e ≢ absent
  invalid_present h = cc

  keep_apart_present : (o : Option Text) (k a : Text) → keep_apart keys o k a ≢ absent
  keep_apart_present none k a = invalid_present
  keep_apart_present (some other) k a = or_invalid_present _ role_conflation _ operator_present

  refuse_conflation_present :
      (b : Bool) (o : Option Text) (k a : Text)
      → (if b then keep_apart keys o k a else operator k a) ≢ absent
  refuse_conflation_present true o k a = keep_apart_present o k a
  refuse_conflation_present false o k a = operator_present

  check_derived_present :
      (o : Option Text) (session_key k a : Text) → check_derived keys o session_key k a ≢ absent
  unfolding refuse_conflation
  check_derived_present none session_key k a = invalid_present
  check_derived_present (some derived) session_key k a =
      or_invalid_present _ address_mismatch _ (refuse_conflation_present _ _ k a)

  validate_operator_present :
      (raw_key raw_address session_key : Text)
      → validate_operator keys raw_key raw_address session_key ≢ absent
  unfolding validate_operator
  validate_operator_present raw_key raw_address session_key =
      or_invalid_present (not (is_placeholder raw_key || is_placeholder raw_address))
        placeholder_value _
        (or_invalid_present (is_key keys raw_key) malformed_key _ (
          or_invalid_present (keys.is_address raw_address) malformed_address _
            (check_derived_present _ session_key raw_key _)))

  refuse_conflation_complete :
      (session_key key address : Text) (b : Bool)
      → is_key keys session_key ≡ b
      → IsSeparate session_key address
      → (if b
          then keep_apart keys (keys.address_of session_key) key address
          else operator key address)
        ≡ operator key address
  refuse_conflation_complete session_key key address true e n =
      let (hex, len) = (is_key_iff session_key).0 e in
      let (other, derived, distinct) = n hex len in
      rw derived (rw (text_eq_apart other address distinct) refl)
  refuse_conflation_complete session_key key address false e n = refl

  check_derived_complete :
      (session_key key address : Text)
      → IsSeparate session_key address
      → check_derived keys (some address) session_key key address ≡ operator key address
  unfolding refuse_conflation
  check_derived_complete session_key key address n =
      rw ((text_eq_iff address address).1 refl)
        (refuse_conflation_complete session_key key address _ refl n)

  validate_operator_complete :
      {raw_key raw_address session_key key address : Text}
      → IsOperator keys raw_key raw_address session_key key address
      → validate_operator keys raw_key raw_address session_key ≡ operator key address
  unfolding validate_operator
  validate_operator_complete {raw_key} {raw_address} {session_key} x =
      let derived = ap keys.address_of (sym x.same_key) ∙ x.derived ∙ ap some x.same_address in
      rw
        (
          x.key_real,
          x.address_real,
          (is_key_iff raw_key).1 (x.key_hex, x.key_length),
          x.address_valid,
          derived,
        )
        (check_derived_complete session_key raw_key (keys.get_address raw_address)
            (subst (IsSeparate session_key) x.same_address x.separate)
          ∙ λ i. operator (sym x.same_key i) (sym x.same_address i))

  -- `readOperatorSigner` returns an operator exactly when both variables are set, neither is a
  -- placeholder, the key is well formed and derives the address, and the session key, if it is well
  -- formed, derives another address (neither derivation throws); and it returns no operator without an error only if neither
  -- variable is set.
  pub read_operator_signer_iff :
      (raw_key raw_address : Option Text) (session_key : Text)
      → ((key address : Text)
          → (read_operator_signer keys raw_key raw_address session_key ≡ operator key address)
            ↔ IsOperator keys (or_else raw_key []) (or_else raw_address []) session_key key address)
        × (read_operator_signer keys raw_key raw_address session_key ≡ absent
            → (nonempty (or_else raw_key []) ≡ false) × (nonempty (or_else raw_address []) ≡ false))
  unfolding read_operator_signer
  read_operator_signer_iff raw_key raw_address session_key = (
    λ key address. (
      λ h.
          let (k, a, s) = by_presence-eq-operator _ _ _ h in
          validate_operator_sound _ _ session_key key address k a s,
      λ x. rw (x.key_set, x.address_set) (validate_operator_complete x),
    ),
    λ h. by_presence-eq-absent _ _ _ (validate_operator_present _ _ session_key) h,
  )
