-- ===== src/Execution/Aborts.antt =====
-- What an execution that stops before it built anything does: the one callback.
use cryptokorr.Common.{◌+◌, Text}
use cryptokorr.Contracts.Callback.{CallbackPayload, execution_aborted}
use cryptokorr.Effect.{Env, World, Action, pure, ◌>>=◌, ◌>>◌, resume, now_iso}
use cryptokorr.Callbacks.{format_callback_id, next_callback_id}
use cryptokorr.Execution.Pipeline.{send_aborted}
use cryptokorr.Trace.Acknowledged.{SendResult, send-SendResult, map-SendResult}

-- The `execution.aborted` that is next in a world.
abbrev pub next_aborted : Env → Text → Text → World → CallbackPayload
next_aborted env id reason w =
    execution_aborted (format_callback_id (w.callback_seq + 1)) id reason (env.clock w.history)

-- All that happens is that this callback is posted; the action returns `result` if the response is
-- ok, and throws a `CallbackError` if not. If the payload does not pass its own schema, nothing
-- happens but a `CallbackError`.
abbrev pub OnlyAborts : {A : Type 0} → Env → Text → Text → A → Action A → World → Type 0
OnlyAborts env id reason result m w = SendResult env result (next_aborted env id reason w) w (m w)

module _ (env : Env) where
  pub send_aborted-OnlyAborts :
      (id reason : Text) (w : World) → OnlyAborts env id reason tt (send_aborted env id reason) w
  unfolding send_aborted ◌>>=◌ resume next_callback_id now_iso
  send_aborted-OnlyAborts id reason w =
      send-SendResult env (next_aborted env id reason w)
        (record w { callback_seq = w.callback_seq + 1 })

  -- Returning a value afterwards adds nothing.
  pub bind_pure-OnlyAborts :
      {A B : Type 0} (id reason : Text) (m : Action A) (f : A → B) (a : A) (w : World)
      → OnlyAborts env id reason a m w
      → OnlyAborts env id reason (f a) (m >>= λ x. pure (f x)) w
  bind_pure-OnlyAborts id reason m f a w h =
      map-SendResult env m f a (next_aborted env id reason w) w w h

  pub then_pure-OnlyAborts :
      {A B : Type 0} (id reason : Text) (m : Action A) (a : A) (b : B) (w : World)
      → OnlyAborts env id reason a m w
      → OnlyAborts env id reason b (m >> pure b) w
  unfolding ◌>>◌
  then_pure-OnlyAborts id reason m a b w h = bind_pure-OnlyAborts id reason m (λ _. b) a w h
