-- ===== src/Revoke.antt =====
-- chain_adapter/src/chains/base/revoke.ts: the revoke of a delegation.
pub mod Guards
pub mod Cryptographic
pub mod Sentinel
pub mod Protocol
pub mod FailClosed
use cryptokorr.Common.{Text, Option, none, some}
use cryptokorr.Contracts.Permission.{PermissionBlock}
use cryptokorr.Effect.{Env, BaseClients, Action}
use cryptokorr.Execution.Pipeline.{TransferResult}
use cryptokorr.Revoke.Cryptographic.{OperatorConfig, Sdk, execute_cryptographic_revoke}
use cryptokorr.Revoke.Sentinel.{execute_sentinel_revoke}

unfoldable pub execute_revoke :
    Env
    → Sdk
    → BaseClients
    → OperatorConfig
    → Text
    → Text
    → Text
    → Option PermissionBlock
    → Action TransferResult
execute_revoke env sdk clients config smart_account_id delegation_id reason (some block) =
    execute_cryptographic_revoke env smart_account_id delegation_id sdk block reason config
execute_revoke env sdk clients config smart_account_id delegation_id reason none =
    execute_sentinel_revoke env smart_account_id delegation_id clients reason
