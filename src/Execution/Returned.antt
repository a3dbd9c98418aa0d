-- ===== src/Execution/Returned.antt =====
-- chain_adapter/src/chains/base/transfer.ts: an execution that returns has had its last callback
-- acknowledged by Phoenix.
use cryptokorr.Effect.{Env, BaseClients}
use cryptokorr.Execution.Pipeline.{Plan, report_confirmed, report_reverted, run_plan}
use cryptokorr.Trace.Acknowledged.{
  Acknowledges, send-Acknowledges, bind-Acknowledges, seq-Acknowledges, then_pure-Acknowledges,
  if-Acknowledges,
}

module _ (env : Env) (clients : BaseClients) (plan : Plan) where
  pub run_plan-Acknowledges : Acknowledges env (run_plan env clients plan)
  unfolding run_plan report_confirmed report_reverted
  run_plan-Acknowledges = bind-Acknowledges env _ _ (λ built. seq-Acknowledges env _ _ (
      seq-Acknowledges env _ _ (
        bind-Acknowledges env _ _ (λ receipt.
          if-Acknowledges env receipt.success _ _
            (bind-Acknowledges env _ _ (λ id.
              bind-Acknowledges env _ _
                (λ now. then_pure-Acknowledges env _ _ (send-Acknowledges env _))))
            (bind-Acknowledges env _ _ (λ id.
              bind-Acknowledges env _ _
                (λ now. then_pure-Acknowledges env _ _ (send-Acknowledges env _))))))))
