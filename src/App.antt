-- ===== src/App.antt =====
-- chain_adapter/src/app.ts: the routes and the error handler. The body of a request is `none` if it has
-- not the structure of its schema, and a request whose body Fastify cannot read at all is `failed`; the
-- chain clients are there, as in production.
pub mod Authorized
pub mod Answers
use cryptokorr.Common.{ℕ, Text, codes, Bool, true, false, Option, none, some, [], if◌then◌else◌}
use cryptokorr.Contracts.Dispatch.{DispatchTransfer, DispatchMorphoDeposit, DispatchSwap}
use cryptokorr.Contracts.Permission.{DispatchRevokeDelegation, DispatchGrantDelegation}
use cryptokorr.Errors.{AdapterError, status_code, error_code, error_message, retryable}
use cryptokorr.Effect.{
  Reply, answered, failed, Thrown, adapter, cryptographic, unexpected, Outcome, ok, thrown, Env,
  BaseClients, World, Action,
}
use cryptokorr.Auth.{AuthFailure, verify_dispatch_auth}
use cryptokorr.Auth
use cryptokorr.Dispatch.Transfer.{TransferDispatchResult, handle_transfer_dispatch}
use cryptokorr.Dispatch.Swap.{SwapDispatchResult, handle_swap_dispatch}
use cryptokorr.Dispatch.MorphoDeposit.{MorphoDepositDispatchResult, handle_morpho_deposit_dispatch}
use cryptokorr.Dispatch.InFlight.{
  Registry, TaskDispatchResult, announce_revoke, resume_revoke, handle_grant_dispatch,
}
use cryptokorr.Install.{
  SessionAccounts, InstallSignSessionPortion, SignInstallResult, handle_sign_session_portion,
}

-- A route, with the body that it is given.
pub data Payload : Type 0 where
  health : Payload
  transfer : Option DispatchTransfer → Payload
  swap : Option DispatchSwap → Payload
  morpho_deposit : Option DispatchMorphoDeposit → Payload
  revoke_delegation : Option DispatchRevokeDelegation → Payload
  grant_delegation : Option DispatchGrantDelegation → Payload
  sign_session_portion : Option InstallSignSessionPortion → Payload

pub data Body : Type 0 where
  service_health : ℕ → Text → Body
  transfer_body : TransferDispatchResult → Body
  swap_body : SwapDispatchResult → Body
  morpho_deposit_body : MorphoDepositDispatchResult → Body
  task_body : TaskDispatchResult → Body
  signature_body : SignInstallResult → Body
  auth_body : AuthFailure → Body
  error_body : Text → Text → Bool → Body

pub record Answer : Type 0 where
  pub status : ℕ
  pub body : Body

-- The module-level sets of the revoke and the grant handler, and the rest of the world.
pub record AppState : Type 0 where
  pub world : World
  pub revokes : Registry
  pub grants : Registry

-- The fields of `AdapterConfig` that the routes read, and the adapter's surroundings.
pub record AppDeps : Type 0 where
  pub env : Env
  pub clients : BaseClients
  pub accounts : SessionAccounts
  pub sha256 : Text → Text
  pub dispatch_auth_secret : Text
  pub delegation_signer_key : Text
  pub usdc_contract_address : Text
  pub contract_version : ℕ

-- `setErrorHandler`
unfoldable pub on_error : Thrown → Answer
on_error (adapter e) = record {
  status = status_code e;
  body = error_body (error_code e) (error_message e) (retryable e);
}
on_error (cryptographic code message) = record {
  status = 500;
  body = error_body (codes "internal_error") (codes "An unexpected error occurred") false;
}
on_error (unexpected message) = record {
  status = 500;
  body = error_body (codes "internal_error") (codes "An unexpected error occurred") false;
}

unfoldable pub answer : {A : Type 0} → ℕ → (A → Body) → Outcome A → Answer
unfolding on_error
answer status body (ok result) = record { status = status; body = body result }
answer status body (thrown e) = on_error e

-- A handler that leaves the sets alone.
unfoldable pub respond : {A : Type 0} → ℕ → (A → Body) → Action A → AppState → Answer × AppState
unfolding answer
respond status body handler s =
    let done = handler s.world in (answer status body done.0, record s { world = done.1 })

-- The account of a dispatch, which is read only once its schema was checked.
abbrev account_of : Option DispatchRevokeDelegation → Text
account_of none = []
account_of (some d) = d.smart_account_id

module _ (deps : AppDeps) where
  unfoldable pub respond_revoke : Option DispatchRevokeDelegation → AppState → Answer × AppState
  unfolding answer
  respond_revoke body s =
      let announced = announce_revoke deps.env body s.world in
      let done = resume_revoke (account_of body) announced.0 s.revokes in
      (answer 202 task_body done.0, record s { world = announced.1; revokes = done.1 })

  unfoldable pub respond_grant : Option DispatchGrantDelegation → AppState → Answer × AppState
  unfolding answer
  respond_grant body s =
      let done = handle_grant_dispatch deps.env.zod body s.grants in
      (answer 202 task_body done.0, record s { grants = done.1 })

  -- The handlers of the routes.
  unfoldable pub route : Payload → AppState → Answer × AppState
  unfolding respond respond_revoke respond_grant
  route health s = (
    record {
      status = 200;
      body = service_health deps.contract_version (deps.env.clock s.world.history);
    },
    s,
  )
  route (transfer body) s =
      respond 202 transfer_body
        (handle_transfer_dispatch deps.env deps.clients deps.usdc_contract_address body) s
  route (swap body) s =
      respond 202 swap_body
        (λ w.
          handle_swap_dispatch deps.env (some deps.clients) (deps.env.clock_ms w.history) body w)
        s
  route (morpho_deposit body) s =
      respond 202 morpho_deposit_body
        (handle_morpho_deposit_dispatch deps.env deps.usdc_contract_address (some deps.clients)
          body)
        s
  route (revoke_delegation body) s = respond_revoke body s
  route (grant_delegation body) s = respond_grant body s
  route (sign_session_portion body) s =
      respond 200 signature_body
        (handle_sign_session_portion deps.accounts deps.env.zod deps.delegation_signer_key body) s

  abbrev pub is_public : Payload → Bool
  is_public health = true
  is_public (transfer body) = false
  is_public (swap body) = false
  is_public (morpho_deposit body) = false
  is_public (revoke_delegation body) = false
  is_public (grant_delegation body) = false
  is_public (sign_session_portion body) = false

  -- The `preHandler` answers, or lets the request through.
  unfoldable pub after_auth : Option AuthFailure → Payload → AppState → Answer × AppState
  unfolding route
  after_auth none payload s = route payload s
  after_auth (some failure) payload s = (record { status = 401; body = auth_body failure }, s)

  unfoldable pub serve : Option Text → Payload → AppState → Answer × AppState
  unfolding after_auth
  serve authorization payload s =
      if is_public payload
      then route payload s
      else after_auth (verify_dispatch_auth deps.sha256 deps.dispatch_auth_secret authorization)
          payload s

  -- Fastify reads the body before any `preHandler`: an error of its own, as for malformed JSON or
  -- an unsupported media type, goes to the error handler at once.
  unfoldable pub handle_request : Option Text → Reply Payload → AppState → Answer × AppState
  unfolding serve on_error
  handle_request authorization (answered payload) s = serve authorization payload s
  handle_request authorization (failed message) s = (on_error (unexpected message), s)
