-- ===== src/Tests/Tasks.antt =====
-- chain_adapter/src/dispatch/revoke.ts and grant.ts: requests for one account, and the end of its task.
use cryptokorr.Common.{Text, codes, text_eq, ◌≡◌, refl, none, some, [], ◌∷◌}
use cryptokorr.Effect.{ok}
use cryptokorr.Contracts.Permission.{DispatchGrantDelegation, grant_schema}
use cryptokorr.Tests.Fixtures.{env, emitted_at}
use cryptokorr.Dispatch.InFlight.{
  Registry, start_task, end_task, resume_revoke, handle_grant_dispatch,
}
use cryptokorr.Dispatch.InFlight.Exclusion.{
  Registries, fresh, Reachable, at_start, after, revoke_resumed, grant_handled, HasOneTask,
  in_flight_exclusive,
}

abbrev acct : Text
acct = codes "acct"

abbrev once : Registry
once = (resume_revoke acct (ok tt) fresh).1

abbrev twice : Registry
twice = (resume_revoke acct (ok tt) once).1

one_task : twice.running ≡ acct ∷ []
unfolding resume_revoke start_task text_eq
one_task = refl

task_ends : (end_task acct twice).in_flight ≡ []
unfolding resume_revoke start_task end_task text_eq
task_ends = refl

abbrev after_revokes : Registries
after_revokes = record { revokes = twice; grants = fresh }

abbrev grant_dispatch : DispatchGrantDelegation
grant_dispatch = record {
  contract_version = 1;
  action = codes "grant_delegation";
  smart_account_id = acct;
  chain_id = 84532;
  account = codes "0x5a";
  correlation_id = none;
  emitted_at = emitted_at;
}

-- Two requests to revoke, and one to grant.
abbrev all_handled : Registries
all_handled = record after_revokes {
  grants = (handle_grant_dispatch env.zod (some grant_dispatch) after_revokes.grants).1;
}

all_handled-Reachable : Reachable all_handled
all_handled-Reachable =
    after
      (after
        (after at_start (revoke_resumed acct (ok tt) (record { revokes = fresh; grants = fresh })))
        (revoke_resumed acct (ok tt) (record { revokes = once; grants = fresh })))
      (grant_handled env.zod (some grant_dispatch) after_revokes)

in_flight_exclusive_example :
    HasOneTask acct all_handled.revokes × HasOneTask acct all_handled.grants
in_flight_exclusive_example = in_flight_exclusive all_handled acct all_handled-Reachable

grant_runs_too :
    (all_handled.revokes.running ≡ acct ∷ []) × (all_handled.grants.running ≡ acct ∷ [])
unfolding resume_revoke handle_grant_dispatch grant_schema start_task text_eq
grant_runs_too = (refl, refl)
