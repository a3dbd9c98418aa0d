-- ===== src/TsSdk/Transport/Idempotency.antt =====
-- Which requests are repeated, and with what.
use cryptokorr.Common.{ℕ, suc, ◌≡◌, refl, sym, subst, false, Option, none, some, ◌∷◌, or_else, Text}
use cryptokorr.TsSdk.Wire.{
  RequestOptions, ResolvedConfig, Request, fetched, Log, SdkEnv, End, is_write,
}
use cryptokorr.TsSdk.Transport.{
  request, key_of, build_request, budget_of, settle_fetch, Round, finished, again, after_round,
  retry_loop,
}
use cryptokorr.TsSdk.Transport.Retries.{settle_fetch-IsRetry}

module _ (env : SdkEnv) (cfg : ResolvedConfig) (opts : RequestOptions) where
  not_again :
      (req : Request) (path : Text) (timeout_ms budget_ms started_at : ℕ) (log : Log) (r : Round)
      (rest : Log → Option (End × Log))
      → settle_fetch env path timeout_ms budget_ms none req started_at 1
          (env.fetch log req)
          (fetched req ∷ log)
        ≡ r
      → (end : End) × (after_round rest (fetched req ∷ log) r ≡ some (end, fetched req ∷ log))
  unfolding after_round
  not_again req path timeout_ms budget_ms started_at log (finished end) rest s = (end, refl)
  not_again req path timeout_ms budget_ms started_at log (again delay) rest s =
      let retry =
        settle_fetch-IsRetry env path timeout_ms budget_ms none req started_at 1 _ _ delay s in
      let keyed = retry.has_key in cc

  no_key : (log : Log) → is_write opts.method ≡ false → key_of env opts log ≡ none
  unfolding key_of
  no_key log w = rw w refl

  -- A request that is not a write is sent once, whatever is answered, and then ends.
  pub request-once :
      (fuel : ℕ) (log : Log)
      → is_write opts.method ≡ false
      → (end : End) × (request env cfg (suc fuel) opts log
          ≡ some (end, fetched (build_request env cfg opts none) ∷ log))
  unfolding request retry_loop
  request-once fuel log w =
      let t = or_else opts.timeout_ms cfg.timeout_ms in
      let b = budget_of env cfg opts in
      let req = build_request env cfg opts none in
      let Once : Option Text → Type 0 = λ k.
        (end : End) × (retry_loop env opts.path t b k (build_request env cfg opts k) (env.now log)
            (suc fuel) 0 log
          ≡ some (end, fetched req ∷ log)) in
      subst Once (sym (no_key log w)) (
        not_again req opts.path t b (env.now log) log _
          (λ later. retry_loop env opts.path t b none req (env.now log) fuel 1 later) refl)
