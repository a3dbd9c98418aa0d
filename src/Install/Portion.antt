-- ===== src/Install/Portion.antt =====
-- When the adapter signs for an install, and as whom.
use cryptokorr.Common.{
  Text, text_eq_iff, to_lower, ◌≡◌, ◌↔◌, refl, subst, Bool, true, false, Option, none, some,
  if◌then◌else◌,
}
use cryptokorr.Contracts.Primitives.{hex_of_length}
use cryptokorr.Effect.{
  Reply, answered, failed, Thrown, ok, World, Action, pure, throw, ◌>>=◌, resume,
}
use cryptokorr.Execution.Pipeline.{run_encoder}
use cryptokorr.Install.{
  SessionAccounts, SignInstallResult, is_expected_signer, sign_with, sign_install_session_portion,
}

-- The adapter signs with its own key, for a hash and a key of 32 bytes, and as the address that was
-- asked for, if one was.
pub record Signs (accounts : SessionAccounts) (key user_op_hash : Text) (expected : Option Text)
    (result : SignInstallResult) : Type 0 where
  pub hash_hex : hex_of_length 64 user_op_hash ≡ true
  pub key_hex : hex_of_length 64 key ≡ true
  pub derived : accounts.address_of key ≡ answered result.session_signer_address
  pub asked_for :
      (a : Text) → expected ≡ some a → to_lower a ≡ to_lower result.session_signer_address
  pub signed : accounts.sign_message key user_op_hash ≡ answered result.signature

-- The outcome of a test, of a settled reply.
tested :
    {A : Type 0} (b : Bool) (m : Action A) (e : Thrown) (w : World) (a : A)
    → (if b then m else throw e) w ≡ (ok a, w)
    → (b ≡ true) × (m w ≡ (ok a, w))
unfolding throw
tested true m e w a h = (refl, h)
tested false m e w a h = cc

replied :
    {A B : Type 0} (r : Reply A) (k : A → Action B) (w : World) (b : B)
    → (run_encoder r >>= k) w ≡ (ok b, w)
    → (a : A) × (r ≡ answered a) × (k a w ≡ (ok b, w))
unfolding run_encoder ◌>>=◌ pure throw resume
replied (answered a) k w b h = (a, refl, h)
replied (failed message) k w b h = cc

returned : {A : Type 0} (a b : A) (w : World) → pure a w ≡ (ok b, w) → a ≡ b
unfolding pure
returned a b w h = cc

module _ (accounts : SessionAccounts) (key user_op_hash : Text) (expected : Option Text) where
  expected_sound :
      (address : Text)
      → is_expected_signer accounts expected address ≡ true
      → (a : Text) → expected ≡ some a
      → to_lower a ≡ to_lower address
  unfolding is_expected_signer
  expected_sound address h a e = (text_eq_iff (to_lower a) (to_lower address)).0 (rw e at h)

  expected_complete :
      (o : Option Text) (address : Text)
      → ((a : Text) → o ≡ some a → to_lower a ≡ to_lower address)
      → is_expected_signer accounts o address ≡ true
  unfolding is_expected_signer
  expected_complete none address h = refl
  expected_complete (some a) address h = (text_eq_iff (to_lower a) (to_lower address)).1 (h a refl)

  sound :
      (result : SignInstallResult) (w : World)
      → sign_install_session_portion accounts key user_op_hash expected w ≡ (ok result, w)
      → Signs accounts key user_op_hash expected result
  unfolding sign_install_session_portion sign_with
  sound result w h =
      let (hash_hex, h₁) = tested (hex_of_length 64 user_op_hash) _ _ w result h in
      let (key_hex, h₂) = tested (hex_of_length 64 key) _ _ w result h₁ in
      let (address, derived, h₃) = replied (accounts.address_of key) _ w result h₂ in
      let (matches, h₄) = tested (is_expected_signer accounts expected address) _ _ w result h₃ in
      let (signature, signed, h₅) =
        replied (accounts.sign_message key user_op_hash) _ w result h₄ in
      subst (Signs accounts key user_op_hash expected) (returned _ result w h₅) (record {
        hash_hex = hash_hex;
        key_hex = key_hex;
        derived = derived;
        asked_for = expected_sound address matches;
        signed = signed;
      })

  complete :
      (result : SignInstallResult) (w : World)
      → Signs accounts key user_op_hash expected result
      → sign_install_session_portion accounts key user_op_hash expected w ≡ (ok result, w)
  unfolding sign_install_session_portion sign_with run_encoder ◌>>=◌ pure resume
  complete result w s =
      rw
        (
          s.hash_hex,
          s.key_hex,
          s.derived,
          expected_complete expected result.session_signer_address s.asked_for,
          s.signed,
        )
        refl

  -- The adapter returns a signature exactly when the hash and its key have 32 bytes, the key has an
  -- address, this is the address that was asked for, up to case, if one was, and the key signed the
  -- hash; and it is that signature, with that address. Nothing is logged or sent.
  pub sign_install_session_portion_iff :
      (result : SignInstallResult) (w : World)
      → (sign_install_session_portion accounts key user_op_hash expected w ≡ (ok result, w))
        ↔ Signs accounts key user_op_hash expected result
  sign_install_session_portion_iff result w = (sound result w, complete result w)
