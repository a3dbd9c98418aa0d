-- ===== src/Callbacks/Client.antt =====
-- chain_adapter/src/callbacks/client.ts: `nextCallbackId` with its module-level counter, and the
-- client's `send`. zod's own description of a failed check is left out of the error message.
use cryptokorr.Common.{ℕ, ◌+◌, ◌-◌, Text, codes, to_string, replicate, length, ◌++◌, if◌then◌else◌}
use cryptokorr.Contracts.Callback.{CallbackPayload, callback_schema}
use cryptokorr.Errors.{callback_error}
use cryptokorr.Effect.{Env, ok, adapter, posted, Action, pure, throw, ◌>>=◌, rethrow_as, call_out}

-- `s.padStart(n, "0")`
unfoldable pub pad_start : ℕ → Text → Text
pad_start n s = replicate (n - length s) b'0' ++ s

unfoldable pub format_callback_id : ℕ → Text
unfolding pad_start to_string
format_callback_id seq = codes "cb_" ++ pad_start 4 (to_string 10 seq)

unfoldable pub next_callback_id : Action Text
next_callback_id w =
    (ok (format_callback_id (w.callback_seq + 1)), record w { callback_seq = w.callback_seq + 1 })

module _ (env : Env) where
  -- The `fetch` of `send`, with the two ways in which it fails.
  unfoldable pub deliver : CallbackPayload → Action (Unit {0})
  unfolding to_string
  deliver payload = do
    response ← rethrow_as (call_out (posted payload) (λ h. env.post_callback h payload)) (λ message.
        throw (adapter (callback_error (codes "Callback delivery failed: " ++ message))))
    if response.is_ok
        then pure tt
        else throw (
            adapter (
              callback_error (
                codes "Phoenix returned "
                ++ to_string 10 response.status
                ++ codes ": "
                ++ response.body)))

  unfoldable pub send : CallbackPayload → Action (Unit {0})
  send payload =
      if callback_schema env.zod payload
      then deliver payload
      else throw (adapter (callback_error (codes "Callback self-validation failed")))
