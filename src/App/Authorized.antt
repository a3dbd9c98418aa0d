-- ===== src/App/Authorized.antt =====
-- Requests without the shared secret.
use cryptokorr.Common.{Text, codes, ◌≡◌, ◌≢◌, refl, false, Option, none, some, ◌++◌}
use cryptokorr.Auth.{AuthFailure, verify_dispatch_auth}
use cryptokorr.Auth.Bearer.{verify_dispatch_auth_iff}
use cryptokorr.App.{
  Payload, health, transfer, swap, morpho_deposit, revoke_delegation, grant_delegation,
  sign_session_portion, AppState, AppDeps, is_public, after_auth, serve,
}

module _ (deps : AppDeps) where
  turned_away :
      (o : Option AuthFailure) (payload : Payload) (s : AppState)
      → o ≢ none
      → ((after_auth deps o payload s).0.status ≡ 401) × ((after_auth deps o payload s).1 ≡ s)
  unfolding after_auth
  turned_away none payload s h = absurd (h refl)
  turned_away (some failure) payload s h = (refl, refl)

  guarded : (payload : Payload) → payload ≢ health → is_public deps payload ≡ false
  guarded health h = absurd (h refl)
  guarded (transfer body) h = refl
  guarded (swap body) h = refl
  guarded (morpho_deposit body) h = refl
  guarded (revoke_delegation body) h = refl
  guarded (grant_delegation body) h = refl
  guarded (sign_session_portion body) h = refl

  -- If no other text has the hash of the secret, a request to any route but /health whose body Fastify
  -- can read, and whose header is not `Bearer`, one space and the secret, is answered with a 401, and has no effect: nothing is logged or
  -- sent, and no task is started.
  pub serve-unauthorized :
      ((s : Text)
        → deps.sha256 s ≡ deps.sha256 deps.dispatch_auth_secret
        → s ≡ deps.dispatch_auth_secret)
      → (authorization : Option Text) (payload : Payload) (s : AppState) → payload ≢ health
      → authorization ≢ some (codes "Bearer " ++ deps.dispatch_auth_secret)
      → ((serve deps authorization payload s).0.status ≡ 401)
        × ((serve deps authorization payload s).1 ≡ s)
  unfolding serve
  serve-unauthorized no_collision authorization payload s p n = rw (guarded payload p) (
      turned_away (verify_dispatch_auth deps.sha256 deps.dispatch_auth_secret authorization) payload
        s
        (λ e.
          n
            ((verify_dispatch_auth_iff deps.sha256 deps.dispatch_auth_secret no_collision
                authorization).0
              e).1))
