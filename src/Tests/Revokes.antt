-- ===== src/Tests/Revokes.antt =====
-- chain_adapter/src/chains/base/revoke.ts, run on the block and the SDK of `Fixtures`.
use cryptokorr.Common.{codes, some, []}
use cryptokorr.Trace.{Course}
use cryptokorr.Revoke.{execute_revoke}
use cryptokorr.Revoke.Protocol.{RevokePhase, started}
use cryptokorr.Revoke.Protocol.Stages.{Step}
use cryptokorr.Revoke.FailClosed.{Revoked, execute_revoke-Course}
use cryptokorr.Tests.Fixtures.{env, clients, world, sdk, operator, block}

execute_revoke-Course_example :
    (q : RevokePhase) × Course
      (Step sdk operator block (codes "acct") (codes "dlg") (codes "user"))
      started
      []
      q
      (execute_revoke env sdk clients operator
        (codes "acct")
        (codes "dlg")
        (codes "user")
        (some block)
        world).1.history
    × Revoked env sdk operator block
        (codes "acct")
        (codes "dlg")
        (codes "user")
        (execute_revoke env sdk clients operator
          (codes "acct")
          (codes "dlg")
          (codes "user")
          (some block)
          world).0
        q
execute_revoke-Course_example =
    execute_revoke-Course env sdk operator block (codes "acct") (codes "dlg") (codes "user") clients
      world
