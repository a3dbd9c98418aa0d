-- ===== src/Grant/Revocable.antt =====
-- Grant and revoke together: what chains/base/revoke.ts checks of a block that chains/base/grant.ts made.
use cryptokorr.Common.{ℕ, Text, text_eq_refl, to_lower, nonempty, length, ◌≡◌, refl, subst, true}
use cryptokorr.Effect.{Outcome, ok, Env, Event, World, History, pure, ◌>>=◌, ◌>>◌, resume}
use cryptokorr.Trace.{Course, begin, next}
use cryptokorr.Contracts.Permission.{PermissionBlock}
use cryptokorr.Execution.Swap.{truthy}
use cryptokorr.Revoke.Guards.{
  assert, derive_validation_id, validation_id_of, assert_validation_id_consistent,
  assert_package_version_pinned, pinned_package_version,
}
use cryptokorr.Revoke.Cryptographic.{Sdk, check_pins}
use cryptokorr.Grant.{GrantSdk, GrantConfig, GrantResult, granted_block, execute_grant}
use cryptokorr.Grant.Protocol.{GrantPhase, started, confirmed, Legal, confirm}
use cryptokorr.Grant.FailClosed.{Granted, execute_grant-Course}

-- The checks of a block pass when each of them does.
check_pins_passes :
    (sdk : Sdk) (block : PermissionBlock) (v : World)
    → sdk.hex.is_hex block.permission_id ≡ true
    → length block.permission_id ≡ 10
    → block.validation_id ≡ validation_id_of sdk.hex block.permission_id
    → block.package_version ≡ pinned_package_version
    → truthy block.session_signer_address ≡ true
    → check_pins sdk block v ≡ (ok tt, v)
unfolding check_pins assert_validation_id_consistent assert_package_version_pinned
    derive_validation_id assert ◌>>=◌ ◌>>◌ resume pure
check_pins_passes sdk block v h l d p n =
    rw
      (
        h,
        l,
        d,
        text_eq_refl (to_lower (validation_id_of sdk.hex block.permission_id)),
        p,
        text_eq_refl pinned_package_version,
        n,
      )
      refl

module _ (env : Env) (sdk : GrantSdk) (config : GrantConfig) (chain_id : ℕ)
    (smart_account_id : Text) where
  Legal-derived :
      (hist : History) (p : GrantPhase) (e : Event) (result : GrantResult)
      → Legal sdk config chain_id smart_account_id hist p e (confirmed result)
      → result.validation_id ≡ validation_id_of sdk.hex result.permission_id
  Legal-derived hist _ _ _ (confirm id address blob callback now receipt s k) = refl

  Course-derived :
      (start h : History) (q : GrantPhase) (result : GrantResult)
      → q ≡ confirmed result
      → Course (Legal sdk config chain_id smart_account_id) started start q h
      → result.validation_id ≡ validation_id_of sdk.hex result.permission_id
  Course-derived start h q result e begin = cc
  Course-derived start _ q result e (next {p} {q = r} {e = event} {h} c l) =
      Legal-derived h p event result
        (subst (λ x. Legal sdk config chain_id smart_account_id h p event x) e l)

  Granted-derived :
      (start h : History) (o : Outcome GrantResult) (q : GrantPhase) (result : GrantResult)
      → o ≡ ok result
      → Granted o q
      → Course (Legal sdk config chain_id smart_account_id) started start q h
      → result.validation_id ≡ validation_id_of sdk.hex result.permission_id
  Granted-derived start h o q result e g c =
      Course-derived start h q result (subst (λ x. Granted x q) e g) c

  -- A grant that returns a result has made a permission block that the revoke lets through: its
  -- `check_pins` passes on the block of the `granted` callback, in whatever world, if the revoke has
  -- the same hex functions, the SDK's permission id is a hex string of 4 bytes, and the address of the
  -- session signer is not empty.
  pub execute_grant-check_pins :
      (revoke_sdk : Sdk) (result : GrantResult) (w v : World)
      → revoke_sdk.hex ≡ sdk.hex
      → (execute_grant env smart_account_id sdk config chain_id w).0 ≡ ok result
      → sdk.hex.is_hex result.permission_id ≡ true
      → length result.permission_id ≡ 10
      → nonempty result.session_signer_address ≡ true
      → check_pins revoke_sdk (granted_block result) v ≡ (ok tt, v)
  unfolding truthy
  execute_grant-check_pins revoke_sdk result w v same e h l n =
      let (q, c, g) = execute_grant-Course env sdk config chain_id smart_account_id w in
      let d = Granted-derived _ _ _ q result e g c in
      check_pins_passes revoke_sdk (granted_block result) v (rw same h) l (rw same d) refl n
