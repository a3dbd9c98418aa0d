-- ===== src/Trace/Delivery.antt =====
-- Callbacks, in the program logic.
use cryptokorr.Common.{inl, inr, Text, Bool, true, false, refl, if◌then◌else◌}
use cryptokorr.Contracts.Callback.{CallbackPayload, callback_schema}
use cryptokorr.Errors.{callback_error}
use cryptokorr.Effect.{
  ◌>>=◌, Outcome, HttpResponse, Env, Event, posted, History, adapter, pure, throw, now_iso, now_ms,
}
use cryptokorr.Callbacks.{next_callback_id, deliver, send}
use cryptokorr.Trace.{Delivered, Delivered-Sent, Stranded-phase, Moved, Stayed, Sent, Follows}
use cryptokorr.Trace.Rules.{
  weaken-Follows, pure-Follows, throw-Follows, bind-Follows, rethrow-Follows, call_out-Follows,
}

module _ {P : Type 0} (L : History → P → Event → P → Type 0) (env : Env) where
  pub next_callback_id-Follows : (p : P) → Follows L p next_callback_id (Stayed p)
  unfolding next_callback_id
  next_callback_id-Follows p from start w c = (p, c, refl)

  pub now_iso-Follows : (p : P) → Follows L p (now_iso env) (Stayed p)
  unfolding now_iso
  now_iso-Follows p from start w c = (p, c, refl)

  pub now_ms-Follows : (p : P) → Follows L p (now_ms env) (Stayed p)
  unfolding now_ms
  now_ms-Follows p from start w c = (p, c, refl)

  accept-Follows :
      (p q : P) (b : Bool) (message : Text)
      → Follows L q
          (if b then pure tt else throw (adapter (callback_error message)))
          (Delivered p q)
  accept-Follows p q true message = pure-Follows L (Delivered p q) q tt refl
  accept-Follows p q false message =
      throw-Follows L (Delivered p q) q (adapter (callback_error message)) (inr refl)

  deliver-Follows :
      (p q : P) (payload : CallbackPayload)
      → ((hist : History) → L hist p (posted payload) q)
      → Follows L p (deliver env payload) (Delivered p q)
  unfolding deliver
  deliver-Follows p q payload l =
      let Mid : Outcome HttpResponse → P → Type 0 = Delivered p q in
      bind-Follows L Mid (Delivered p q) p _ _
        (rethrow-Follows L (Moved (λ _. Unit {0}) q) Mid p _ _
          (call_out-Follows L p q (posted payload) (λ h. env.post_callback h payload) l)
          (λ a r h. h.1) (λ e r h. throw-Follows L Mid r _ (inr (Stranded-phase q r e h))))
        (λ response r e. rw e (accept-Follows p q response.is_ok _)) (λ e r h. h)

  send_checked-Follows :
      (p q : P) (payload : CallbackPayload) (b : Bool) (message : Text)
      → ((hist : History) → L hist p (posted payload) q)
      → Follows L p
          (if b then deliver env payload else throw (adapter (callback_error message)))
          (Delivered p q)
  send_checked-Follows p q payload true message l = deliver-Follows p q payload l
  send_checked-Follows p q payload false message l =
      throw-Follows L (Delivered p q) p (adapter (callback_error message)) (inl refl)

  pub send-Delivered :
      (p q : P) (payload : CallbackPayload)
      → ((hist : History) → L hist p (posted payload) q)
      → Follows L p (send env payload) (Delivered p q)
  unfolding send
  send-Delivered p q payload l =
      send_checked-Follows p q payload (callback_schema env.zod payload) _ l

  pub send-Follows :
      (p q : P) (payload : CallbackPayload)
      → ((hist : History) → L hist p (posted payload) q)
      → Follows L p (send env payload) (Sent q)
  send-Follows p q payload l =
      weaken-Follows L (Delivered p q) (Sent q) p (send env payload) (Delivered-Sent p q)
        (send-Delivered p q payload l)

  -- A callback whose id and time are made on the spot.
  pub callback-Delivered :
      (p q : P) (payload : Text → Text → CallbackPayload)
      → ((id now : Text) (hist : History) → L hist p (posted (payload id now)) q)
      → Follows L p
          (next_callback_id >>= λ id. now_iso env >>= λ now. send env (payload id now))
          (Delivered p q)
  callback-Delivered p q payload l =
      bind-Follows L (Stayed p) (Delivered p q) p _ _ (next_callback_id-Follows p)
        (λ id r e. rw e (
          bind-Follows L (Stayed p) (Delivered p q) p _ _ (now_iso-Follows p)
            (λ now r' e'. rw e' (send-Delivered p q (payload id now) (l id now)))
            (λ x r' h. absurd h)))
        (λ x r h. absurd h)
