-- ===== src/App/Answers.antt =====
-- The answers to transfers that have the secret.
use cryptokorr.Common.{
  ℕ, Text, codes, ◌≡◌, refl, subst, sym, ◌⊎◌, inl, inr, Bool, true, false, Bool-cases, Option, none,
  some,
}
use cryptokorr.Config.Chains.{is_supported_chain}
use cryptokorr.Config.Assets.{is_supported_asset}
use cryptokorr.Contracts.Dispatch.{DispatchTransfer, transfer_schema}
use cryptokorr.Errors.{
  AdapterError, callback_error, execution_error, validation_error, unsupported_error,
  not_implemented_error, status_code,
}
use cryptokorr.Effect.{
  Reply, answered, failed, Env, Outcome, ok, thrown, adapter, cryptographic, unexpected, World,
}
use cryptokorr.Auth.{verify_dispatch_auth}
use cryptokorr.Execution.Protocol.{Phase}
use cryptokorr.Dispatch.Gates.{
  Refuses, is_supported_chain_sound, is_supported_chain_complete, is_supported_asset_sound,
  is_supported_asset_complete,
}
use cryptokorr.Dispatch.Transfer.{TransferDispatchResult, handle_transfer_dispatch}
use cryptokorr.Dispatch.Transfer.Admission.{
  IsAdmitted, Dispatched, handle_transfer_dispatch-Course, handle_transfer_dispatch-Refuses,
}
use cryptokorr.App.{
  Payload, Answer, error_body, AppState, AppDeps, transfer, transfer_body, on_error, answer,
  after_auth, serve, handle_request,
}

-- Accepted, refused for its body or for what is not supported, or failed on the way.
abbrev pub IsTransferStatus : ℕ → Type 0
IsTransferStatus status = (status ≡ 202) ⊎ ((status ≡ 400) ⊎ ((status ≡ 422) ⊎ (status ≡ 502)))

-- A transfer request, as Fastify reads it.
abbrev pub transfer_request : Reply (Option DispatchTransfer) → Reply Payload
transfer_request (answered body) = answered (transfer body)
transfer_request (failed message) = failed message

abbrev pub internal_error : Answer
internal_error = record {
  status = 500;
  body = error_body (codes "internal_error") (codes "An unexpected error occurred") false;
}

abbrev pub IsTransferAnswer :
    Reply (Option DispatchTransfer) → AppState → Answer × AppState → Type 0
IsTransferAnswer (answered body) s done = IsTransferStatus done.0.status
IsTransferAnswer (failed message) s done = (done.0 ≡ internal_error) × (done.1 ≡ s)

refused_status :
    (e : AdapterError)
    → (status_code e ≡ 400) ⊎ (status_code e ≡ 422)
    → IsTransferStatus (on_error (adapter e)).status
unfolding on_error
refused_status e (inl h) = inr (inl h)
refused_status e (inr h) = inr (inr (inl h))

Dispatched-status :
    (id : Text) (o : Outcome TransferDispatchResult) (q : Phase)
    → Dispatched id o q
    → IsTransferStatus (answer 202 transfer_body o).status
unfolding answer on_error status_code
Dispatched-status id (ok result) q h = inl refl
Dispatched-status id (thrown (adapter (execution_error c m))) q h = inr (inr (inr refl))
Dispatched-status id (thrown (adapter (callback_error m))) q h = inr (inr (inr refl))
Dispatched-status id (thrown (adapter (validation_error m))) q h = absurd h
Dispatched-status id (thrown (adapter (unsupported_error m))) q h = absurd h
Dispatched-status id (thrown (adapter (not_implemented_error m))) q h = absurd h
Dispatched-status id (thrown (cryptographic c m)) q h = absurd h
Dispatched-status id (thrown (unexpected m)) q h = absurd h

not_true : (b : Bool) → b ≡ false → b ≡ true → ⊥
not_true b h k = cc

none_not_some : (d : DispatchTransfer) → none ≡ some d → ⊥
none_not_some d h = cc

same_dispatch : (d e : DispatchTransfer) → some d ≡ some e → d ≡ e
same_dispatch d e h = cc

IsAdmitted-cases : (env : Env) (d : DispatchTransfer) → IsAdmitted env d ⊎ (IsAdmitted env d → ⊥)
IsAdmitted-cases env d = elim (Bool-cases (transfer_schema env.zod d)) [
  | inr h ↦ inr (λ a. not_true _ h a.valid)
  | inl valid ↦ elim (Bool-cases (is_supported_chain d.chain)) [
    | inr h ↦ inr (λ a. not_true _ h (is_supported_chain_complete d.chain a.chain))
    | inl chain ↦ elim (Bool-cases (is_supported_asset d.asset)) [
      | inr h ↦ inr (λ a. not_true _ h (is_supported_asset_complete d.asset a.asset))
      | inl asset ↦ inl (record {
        valid = valid;
        chain = is_supported_chain_sound d.chain chain;
        asset = is_supported_asset_sound d.asset asset;
      })
    ]
  ]
]

module _ (deps : AppDeps) where
  refused_answer :
      (body : Option DispatchTransfer) (w : World)
      → Refuses (handle_transfer_dispatch deps.env deps.clients deps.usdc_contract_address body) w
      → IsTransferStatus
          (answer 202 transfer_body
            (handle_transfer_dispatch deps.env deps.clients deps.usdc_contract_address body
              w).0).status
  unfolding answer
  refused_answer body w (e, same, status) = rw same (refused_status e status)

  transfer_answer :
      (body : Option DispatchTransfer) (w : World)
      → IsTransferStatus
          (answer 202 transfer_body
            (handle_transfer_dispatch deps.env deps.clients deps.usdc_contract_address body
              w).0).status
  transfer_answer none w = refused_answer none w (
      handle_transfer_dispatch-Refuses deps.env deps.clients deps.usdc_contract_address none w
        (λ d h. absurd (none_not_some d h)))
  transfer_answer (some d) w = elim (IsAdmitted-cases deps.env d) [
    | inl a ↦
        let (n, e, (q, c, v), acknowledged) =
          handle_transfer_dispatch-Course deps.env deps.clients deps.usdc_contract_address d w a in
        Dispatched-status d.execution_plan_id _ q v
    | inr n ↦ refused_answer (some d) w (
        handle_transfer_dispatch-Refuses deps.env deps.clients deps.usdc_contract_address (some d) w
          (λ d' h a. n (subst (IsAdmitted deps.env) (sym (same_dispatch d d' h)) a)))
  ]

  -- Every transfer request with the secret whose body Fastify can read, whatever that body is and
  -- whatever the chain, the bundler and Phoenix answer, is answered with 202, 400, 422 or 502, never as
  -- an internal error. One whose body Fastify cannot read has no effect, and is answered as an
  -- internal error, with 500.
  pub serve-transfer :
      (authorization : Option Text) (body : Reply (Option DispatchTransfer)) (s : AppState)
      → verify_dispatch_auth deps.sha256 deps.dispatch_auth_secret authorization ≡ none
      → IsTransferAnswer body s (handle_request deps authorization (transfer_request body) s)
  unfolding handle_request serve after_auth on_error
  serve-transfer authorization (answered body) s h = rw h (transfer_answer body s.world)
  serve-transfer authorization (failed message) s h = (refl, refl)
