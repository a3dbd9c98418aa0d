-- ===== src/Revoke/Protocol/Stages.antt =====
-- The guards and calls of the cryptographic revoke, each against its protocol.
use cryptokorr.Common.{
  Text, text_eq_iff, to_lower, nonempty, all, or_else, ◌≡◌, refl, sym, Bool, true, false, Option,
  none, some, List, [], ◌∷◌, arith,
}
use cryptokorr.Contracts.Permission.{PermissionBlock}
use cryptokorr.Effect.{answered, failed, cryptographic, Event, History}
use cryptokorr.Trace.{Follows}
use cryptokorr.Trace.Rules.{pure-Follows, throw-Follows}
use cryptokorr.Trace.Attempts.{and_then-Follows, then-Follows, advance-Follows}
use cryptokorr.Revoke.Guards.{
  RevokeFailure, failure_code, refuse, assert, derive_validation_id, validation_id_of,
  assert_validation_id_consistent, assert_package_version_pinned, pinned_package_version,
  assert_signer_module_allowed, assert_each_policy_allowed, assert_policy_modules_allowed,
  accepted_signer_contracts, accepted_policy_contracts,
}
use cryptokorr.Revoke.Cryptographic.{
  OperatorConfig, Plugin, Sdk, require_policies, require_plugin, extract_policy_contract_addresses,
  check_pins, load_plugin,
}
use cryptokorr.Revoke.Protocol.{
  RevokePhase, started, stubbed, loaded, is_pinned, PoliciesPinned, PluginPinned, IsPinnedBlock,
  CanFail, at_start, at_stubbed, at_loaded, Legal, stub, load, IsFailed, Try,
}

module _ (L : History → RevokePhase → Event → RevokePhase → Type 0) where
  refuse-Follows :
      {A : Type 0} (G : A → RevokePhase → Type 0) (p : RevokePhase) (f : RevokeFailure)
      (message : Text)
      → CanFail p
      → Follows L p (refuse f message) (Try G)
  unfolding refuse
  refuse-Follows G p f message c =
      throw-Follows L (Try G) p (cryptographic (failure_code f) message) c

  assert-Follows :
      (H : RevokePhase → Type 0) (p : RevokePhase) (b : Bool) (f : RevokeFailure) (message : Text)
      → CanFail p
      → (b ≡ true → H p)
      → Follows L p (assert b f message) (Try (λ u r. H r))
  unfolding assert
  assert-Follows H p true f message c h = pure-Follows L (Try (λ u r. H r)) p tt (h refl)
  assert-Follows H p false f message c h = refuse-Follows (λ u r. H r) p f message c

  -- Two assertions, one after the other.
  signer-Follows :
      (p : RevokePhase) (address : Option Text)
      → CanFail p
      → Follows L p
          (assert_signer_module_allowed address)
          (Try (λ u r. (is_pinned accepted_signer_contracts address ≡ true) × (r ≡ p)))
  unfolding assert_signer_module_allowed
  signer-Follows p address c =
      then-Follows CanFail IsFailed L (λ u r. (nonempty (or_else address []) ≡ true) × (r ≡ p)) _ p
        _ _
        (assert-Follows (λ r. (nonempty (or_else address []) ≡ true) × (r ≡ p)) p _ _ _ c
          (λ b. (b, refl)))
        (λ u q h. rw h.1 (
          assert-Follows (λ r. (is_pinned accepted_signer_contracts address ≡ true) × (r ≡ p)) p _ _
            _ c (λ b. (rw h.0 b, refl))))

  each_policy-Follows :
      (H : RevokePhase → Type 0) (p : RevokePhase) (addresses : List (Option Text))
      → CanFail p
      → (all (is_pinned accepted_policy_contracts) addresses ≡ true → H p)
      → Follows L p (assert_each_policy_allowed addresses) (Try (λ u r. H r))
  unfolding assert_each_policy_allowed
  each_policy-Follows H p [] c h = pure-Follows L (Try (λ u r. H r)) p tt (h refl)
  each_policy-Follows H p (address ∷ rest) c h =
      let G : Bool → RevokePhase → Type 0 = λ b r. (b ≡ true) × (r ≡ p) in
      then-Follows CanFail IsFailed L (λ u. G (nonempty (or_else address []))) (λ u r. H r) p _ _
        (assert-Follows (G (nonempty (or_else address []))) p _ _ _ c (λ b. (b, refl)))
        (λ u q x. rw x.1 (
          then-Follows CanFail IsFailed L (λ v. G (is_pinned accepted_policy_contracts address))
            (λ v r. H r) p _ _
            (assert-Follows (G (is_pinned accepted_policy_contracts address)) p _ _ _ c
              (λ b. (rw x.0 b, refl)))
            (λ v r y. rw y.1 (each_policy-Follows H p rest c (λ b. h (rw y.0 b))))))

  policies-Follows :
      (H : RevokePhase → Type 0) (p : RevokePhase) (addresses : List (Option Text))
      → CanFail p
      → (PoliciesPinned addresses → H p)
      → Follows L p (assert_policy_modules_allowed addresses) (Try (λ u r. H r))
  unfolding assert_policy_modules_allowed
  policies-Follows H p [] c h = refuse-Follows (λ u r. H r) p _ _ c
  policies-Follows H p (address ∷ rest) c h =
      each_policy-Follows H p (address ∷ rest) c (λ b. h (omega arith, b))

  require_policies-Follows :
      (H : RevokePhase → Type 0) (p : RevokePhase) (plugin : Plugin)
      (o : Option (Option (List (Option Text))))
      → plugin.serialization_params ≡ o
      → CanFail p
      → (PluginPinned plugin → H p)
      → Follows L p (require_policies o) (Try (λ u r. H r))
  unfolding require_policies
  require_policies-Follows H p plugin none e c h = refuse-Follows (λ u r. H r) p _ _ c
  require_policies-Follows H p plugin (some policies) e c h =
      policies-Follows H p (extract_policy_contract_addresses policies) c (λ x. h (policies, e, x))

  require_plugin-Follows :
      (to : Option Plugin → RevokePhase) (found : Option Plugin)
      → CanFail (to found)
      → Follows L (to found) (require_plugin found) (Try (λ plugin r. r ≡ to (some plugin)))
  unfolding require_plugin
  require_plugin-Follows to none c =
      refuse-Follows (λ plugin r. r ≡ to (some plugin)) (to none) _ _ c
  require_plugin-Follows to (some plugin) c =
      pure-Follows L (Try (λ x r. r ≡ to (some x))) (to (some plugin)) plugin refl

module _ (sdk : Sdk) (config : OperatorConfig) (block : PermissionBlock)
    (smart_account_id delegation_id reason : Text) where
  -- The step relation of this revoke.
  abbrev pub Step : History → RevokePhase → Event → RevokePhase → Type 0
  Step = Legal sdk config block smart_account_id delegation_id reason

  pub check_pins-Follows :
      Follows Step started
        (check_pins sdk block)
        (Try (λ u r. IsPinnedBlock sdk block × (r ≡ started)))
  unfolding check_pins assert_validation_id_consistent derive_validation_id
      assert_package_version_pinned
  check_pins-Follows =
      let G : Type 0 → RevokePhase → Type 0 = λ T r. T × (r ≡ started) in
      let SameId =
        to_lower (validation_id_of sdk.hex block.permission_id) ≡ to_lower block.validation_id in
      let SameVersion = block.package_version ≡ pinned_package_version in
      then-Follows CanFail IsFailed Step (λ u. G SameId) _ started _ _
        (and_then-Follows CanFail IsFailed Step
          (λ derived r. (derived ≡ validation_id_of sdk.hex block.permission_id) × (r ≡ started))
          (λ u. G SameId) started _ _
          (then-Follows CanFail IsFailed Step (λ u r. r ≡ started) _ started _ _
            (assert-Follows Step (λ r. r ≡ started) started _ _ _ at_start (λ b. refl))
            (λ u q e. rw e (
              pure-Follows Step
                (Try (λ derived r.
                  (derived ≡ validation_id_of sdk.hex block.permission_id) × (r ≡ started)))
                started _ (refl, refl))))
          (λ derived q h. rw h.1 (
            assert-Follows Step (G SameId) started _ _ _ at_start (λ b. (
              rw (sym h.0) ((text_eq_iff (to_lower derived) (to_lower block.validation_id)).0 b),
              refl,
            )))))
        (λ u q h. rw h.1 (
          then-Follows CanFail IsFailed Step (λ v. G SameVersion) _ started _ _
            (assert-Follows Step (G SameVersion) started _ _ _ at_start
              (λ b. ((text_eq_iff block.package_version pinned_package_version).0 b, refl)))
            (λ v r k. rw k.1 (
              assert-Follows Step (G (IsPinnedBlock sdk block)) started _ _ _ at_start (λ b. (
                record { validation_id = h.0; package_version = k.0; session_signer = b },
                refl,
              ))))))

  -- The plugin that the phase holds afterwards is a pinned one.
  pub load_plugin-Follows :
      Follows Step started (load_plugin sdk block) (
        Try
          (λ u r. (plugin : Plugin) × PluginPinned plugin × (r ≡ loaded (answered (some plugin)))))
  unfolding load_plugin
  load_plugin-Follows =
      let End : RevokePhase → Type 0 =
        λ r. (plugin : Plugin) × PluginPinned plugin × (r ≡ loaded (answered (some plugin))) in
      and_then-Follows CanFail IsFailed Step (λ a r. r ≡ stubbed (answered a)) (λ u r. End r)
        started _ _
        (advance-Follows CanFail IsFailed Step started stubbed _ _ (λ m. at_stubbed (failed m))
          (λ hist. stub))
        (λ a q e. rw e (
          then-Follows CanFail IsFailed Step
            (λ u r. (is_pinned accepted_signer_contracts a ≡ true) × (r ≡ stubbed (answered a)))
            (λ u r. End r) (stubbed (answered a)) _ _
            (signer-Follows Step (stubbed (answered a)) a (at_stubbed (answered a)))
            (λ u r h. rw h.1 (
              and_then-Follows CanFail IsFailed Step (λ found s. s ≡ loaded (answered found))
                (λ u r. End r) (stubbed (answered a)) _ _
                (advance-Follows CanFail IsFailed Step (stubbed (answered a)) loaded _ _
                  (λ m. at_loaded (failed m)) (λ hist. load a h.0))
                (λ found s e'. rw e' (
                  and_then-Follows CanFail IsFailed Step
                    (λ plugin t. t ≡ loaded (answered (some plugin))) (λ u r. End r)
                    (loaded (answered found)) _ _
                    (require_plugin-Follows Step (λ o. loaded (answered o)) found
                      (at_loaded (answered found)))
                    (λ plugin t e''. rw e'' (
                      require_policies-Follows Step End (loaded (answered (some plugin))) plugin
                        plugin.serialization_params refl (at_loaded (answered (some plugin)))
                        (λ x. (plugin, x, refl))))))))))
