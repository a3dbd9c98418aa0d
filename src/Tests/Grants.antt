-- ===== src/Tests/Grants.antt =====
-- chain_adapter/src/chains/base/grant.ts, run on the SDK of `Fixtures`.
use cryptokorr.Common.{
  codes, ◌≡◌, refl, [], to_string, replace_all, replace_from, begins_with, is_space,
}
use cryptokorr.Effect.{
  ok, ◌>>=◌, ◌>>◌, try_catch, pure, call_out, now_iso, intercept, recover, resume, rethrow_as,
  settle, throw,
}
use cryptokorr.Callbacks.{next_callback_id, send}
use cryptokorr.Callbacks.Client.{deliver, format_callback_id, pad_start}
use cryptokorr.Contracts.Callback.{callback_schema}
use cryptokorr.Contracts.Permission.{permission_schema}
use cryptokorr.Contracts.Primitives.{hex_of_length, after_0x}
use cryptokorr.Execution.Pipeline.{run_encoder}
use cryptokorr.Execution.Swap.{truthy}
use cryptokorr.Revoke.Guards.{validation_id_of}
use cryptokorr.Trace.{Course}
use cryptokorr.Revoke.Cryptographic.{check_pins}
use cryptokorr.Grant.{
  granted_block, execute_grant, install_and_report, build_and_install, install_and_serialize,
  install_permission, settle_install, serialize_permission, report_granted,
}
use cryptokorr.Grant.Redaction.{redact_grant_error, match_url, match_after_scheme}
use cryptokorr.Grant.Protocol.{GrantPhase, started, Legal}
use cryptokorr.Grant.FailClosed.{Granted, execute_grant-Course}
use cryptokorr.Grant.Revocable.{execute_grant-check_pins}
use cryptokorr.Tests.Fixtures.{env, world, sdk, grant_sdk, grant_config, grant}

execute_grant-Course_example :
    (q : GrantPhase) × Course
      (Legal grant_sdk grant_config 84532 (codes "acct"))
      started
      []
      q
      (execute_grant env (codes "acct") grant_sdk grant_config 84532 world).1.history
    × Granted (execute_grant env (codes "acct") grant_sdk grant_config 84532 world).0 q
execute_grant-Course_example =
    execute_grant-Course env grant_sdk grant_config 84532 (codes "acct") world

granted : (execute_grant env (codes "acct") grant_sdk grant_config 84532 world).0 ≡ ok grant
unfolding execute_grant truthy install_and_report ◌>>=◌ ◌>>◌ try_catch build_and_install run_encoder
    pure call_out install_and_serialize install_permission settle_install serialize_permission
    report_granted next_callback_id now_iso send deliver format_callback_id pad_start to_string
    callback_schema permission_schema hex_of_length after_0x intercept recover resume rethrow_as
    settle throw validation_id_of
granted = refl

execute_grant-check_pins_example : check_pins sdk (granted_block grant) world ≡ (ok tt, world)
execute_grant-check_pins_example =
    execute_grant-check_pins env grant_sdk grant_config 84532 (codes "acct") sdk grant world world
      refl granted refl refl refl

redacted :
    redact_grant_error (codes "at http://rpc.io/v2/key?a failed")
    ≡ codes "at http://rpc.io/<redacted> failed"
unfolding redact_grant_error replace_all replace_from match_url match_after_scheme begins_with
    is_space
redacted = refl
