-- ===== src/Dispatch/InFlight.antt =====
-- chain_adapter/src/dispatch/revoke.ts and grant.ts: the handlers that start a task and return, with
-- their module-level sets of the accounts that have a task in flight. The code between two awaits runs
-- alone, so it is one function from registry to registry.
pub mod Exclusion
use cryptokorr.Common.{
  Text, codes, text_eq, any, Bool, true, false, Option, none, some, List, [], ◌∷◌, if◌then◌else◌,
}
use cryptokorr.Contracts.Primitives.{Zod}
use cryptokorr.Contracts.Permission.{
  DispatchRevokeDelegation, DispatchGrantDelegation, revoke_schema, grant_schema,
}
use cryptokorr.Contracts.Callback.{revoking}
use cryptokorr.Errors.{validation_error}
use cryptokorr.Effect.{Thrown, adapter, Outcome, ok, thrown, Env, Action, throw}
use cryptokorr.Revoke.Cryptographic.{report_state}

-- `inFlight`, and the accounts of the tasks that were started and have not ended.
pub record Registry : Type 0 where
  pub in_flight : List Text
  pub running : List Text

-- `set.has(a)`, `set.add(a)` and `set.delete(a)`.
abbrev pub has : Text → List Text → Bool
has a s = any (λ x. text_eq a x) s

abbrev pub add : Text → List Text → List Text
add a s = if has a s then s else a ∷ s

abbrev pub delete : Text → List Text → List Text
delete a [] = []
delete a (x ∷ s) = let rest = delete a s in if text_eq a x then rest else x ∷ rest

-- One task of the account ends.
abbrev pub remove : Text → List Text → List Text
remove a [] = []
remove a (x ∷ s) = let rest = remove a s in if text_eq a x then s else x ∷ rest

unfoldable pub start_task : Text → Registry → Registry
start_task a r =
    if has a r.in_flight
    then r
    else record { in_flight = add a r.in_flight; running = a ∷ r.running }

-- The `finally` of `runRevoke` and `runGrant`.
unfoldable pub end_task : Text → Registry → Registry
end_task a r = record { in_flight = delete a r.in_flight; running = remove a r.running }

-- `RevokeDispatchResult` and `GrantDispatchResult`, whose other fields are constant.
pub record TaskDispatchResult : Type 0 where
  pub smart_account_id : Text

-- `handleRevokeDispatch` up to the end of its only `await`.
unfoldable pub announce_revoke : Env → Option DispatchRevokeDelegation → Action (Unit {0})
announce_revoke env none =
    throw (adapter (validation_error (codes "Invalid revoke_delegation dispatch payload")))
announce_revoke env (some d) =
    if revoke_schema env.zod d
    then report_state env d.smart_account_id d.delegation_id revoking d.reason none
    else throw (adapter (validation_error (codes "Invalid revoke_delegation dispatch payload")))

-- What follows that `await`.
unfoldable pub resume_revoke :
    Text → Outcome (Unit {0}) → Registry → Outcome TaskDispatchResult × Registry
unfolding start_task
resume_revoke a (ok u) r = (ok (record { smart_account_id = a }), start_task a r)
resume_revoke a (thrown e) r = (thrown e, r)

unfoldable pub handle_grant_dispatch :
    Zod → Option DispatchGrantDelegation → Registry → Outcome TaskDispatchResult × Registry
unfolding start_task
handle_grant_dispatch zod none r =
    (thrown (adapter (validation_error (codes "Invalid grant_delegation dispatch payload"))), r)
handle_grant_dispatch zod (some d) r =
    if grant_schema zod d
    then (ok (record { smart_account_id = d.smart_account_id }), start_task d.smart_account_id r)
    else (
      thrown (adapter (validation_error (codes "Invalid grant_delegation dispatch payload"))),
      r,
    )
