-- ===== src/Trace/Acknowledged.antt =====
-- chain_adapter/src/callbacks/client.ts: what a callback that `send` made left behind, and actions that
-- return only after one that Phoenix acknowledged.
use cryptokorr.Common.{
  Text, codes, to_string, ◌++◌, ◌≡◌, refl, ◌∙◌, ap, sym, ◌⊎◌, inl, inr, Bool, true, false, ◌∷◌,
  if◌then◌else◌,
}
use cryptokorr.Contracts.Callback.{CallbackPayload, callback_schema}
use cryptokorr.Errors.{callback_error}
use cryptokorr.Effect.{
  Reply, answered, failed, HttpResponse, Thrown, Outcome, ok, thrown, adapter, Env, World, History,
  posted, Action, pure, throw, ◌>>=◌, ◌>>◌, resume, rethrow_as, recover, settle, message_of,
  call_out,
}
use cryptokorr.Callbacks.{deliver, send}

abbrev pub IsCallbackError : {A : Type 0} → Outcome A → Type 0
IsCallbackError o = (message : Text) × (o ≡ thrown (adapter (callback_error message)))

-- What becomes of a callback that was posted: a result if the response is ok, else a `CallbackError`.
pub data Concludes {A : Type 0} (result : A) : Reply HttpResponse → Outcome A → Type 0 where
  on_ok : (r : HttpResponse) → r.is_ok ≡ true → Concludes result (answered r) (ok result)
  on_refusal :
      (r : HttpResponse) (message : Text)
      → r.is_ok ≡ false
      → Concludes result (answered r) (thrown (adapter (callback_error message)))
  on_failure :
      (cause message : Text)
      → Concludes result (failed cause) (thrown (adapter (callback_error message)))

module _ (env : Env) where
  accepted-Concludes :
      (r : HttpResponse) (b : Bool) (message : Text) (w : World)
      → r.is_ok ≡ b
      → Concludes tt
          (answered r)
          ((if b then pure tt else throw (adapter (callback_error message))) w).0
  unfolding pure throw
  accepted-Concludes r true message w e = on_ok r e
  accepted-Concludes r false message w e = on_refusal r message e

  accepted-world :
      (b : Bool) (message : Text) (w : World)
      → ((if b then pure tt else throw (adapter (callback_error message))) w).1 ≡ w
  unfolding pure throw
  accepted-world true message w = refl
  accepted-world false message w = refl

  -- The end of `deliver`, after its `fetch`.
  after_fetch :
      (f : Text → Text) (g : HttpResponse → Text) (reply : Reply HttpResponse) (w : World)
      → Concludes tt reply
          ((rethrow_as (λ v. (settle reply, v)) (λ m. throw (adapter (callback_error (f m))))
              >>= λ r. if r.is_ok then pure tt else throw (adapter (callback_error (g r))))
            w).0
        × (((rethrow_as (λ v. (settle reply, v)) (λ m. throw (adapter (callback_error (f m))))
                >>= λ r. if r.is_ok then pure tt else throw (adapter (callback_error (g r))))
              w).1
            ≡ w)
  unfolding rethrow_as recover settle ◌>>=◌ resume throw message_of
  after_fetch f g (answered r) w =
      (accepted-Concludes r r.is_ok (g r) w refl, accepted-world r.is_ok (g r) w)
  after_fetch f g (failed message) w = (on_failure message (f message), refl)

  -- What `send` did, and how it ended.
  abbrev pub SendResult : {A : Type 0} → A → CallbackPayload → World → Outcome A × World → Type 0
  SendResult result payload w done =
      ((callback_schema env.zod payload ≡ true)
        × (done.1.history ≡ posted payload ∷ w.history)
        × Concludes result (env.post_callback w.history payload) done.0)
      ⊎ ((callback_schema env.zod payload ≡ false)
          × (done.1.history ≡ w.history)
          × IsCallbackError done.0)

  send_checked :
      (payload : CallbackPayload) (w : World) (b : Bool) (message : Text)
      → callback_schema env.zod payload ≡ b
      → SendResult tt payload w
          ((if b then deliver env payload else throw (adapter (callback_error message))) w)
  unfolding deliver call_out ◌>>=◌ rethrow_as throw
  send_checked payload w true message e =
      let (o, same) =
        after_fetch (λ m. codes "Callback delivery failed: " ++ m)
          (λ r. codes "Phoenix returned " ++ to_string 10 r.status ++ codes ": " ++ r.body)
          (env.post_callback w.history payload)
          (record w { history = posted payload ∷ w.history }) in
      inl (e, ap (λ (v : World). v.history) same, o)
  send_checked payload w false message e = inr (e, refl, (message, refl))

  pub send-SendResult :
      (payload : CallbackPayload) (w : World) → SendResult tt payload w (send env payload w)
  unfolding send
  send-SendResult payload w = send_checked payload w (callback_schema env.zod payload) _ refl

  -- The last event is a callback that Phoenix answered with a response that is ok.
  pub record IsAcknowledged (h : History) : Type 0 where
    pub payload : CallbackPayload
    pub before : History
    pub response : HttpResponse
    pub last : h ≡ posted payload ∷ before
    pub reply : env.post_callback before payload ≡ answered response
    pub response_ok : response.is_ok ≡ true

  Concludes-reply :
      {A : Type 0} {result : A} {r : Reply HttpResponse} {o : Outcome A} {a : A}
      → Concludes result r o
      → o ≡ ok a
      → (response : HttpResponse) × (r ≡ answered response) × (response.is_ok ≡ true)
  Concludes-reply (on_ok r h) e = (r, refl, h)
  Concludes-reply (on_refusal r message h) e = cc
  Concludes-reply (on_failure cause message) e = cc

  -- The action returns only after such a callback.
  abbrev pub Acknowledges : {A : Type 0} → Action A → Type 0
  Acknowledges {A} m = (w : World) (a : A) → (m w).0 ≡ ok a → IsAcknowledged (m w).1.history

  -- If there is a result, its log is that of an action whose last callback was acknowledged.
  abbrev pub ReturnsAcknowledged : {A : Type 0} → Outcome A → History → Type 0
  ReturnsAcknowledged (ok a) h = IsAcknowledged h
  ReturnsAcknowledged (thrown e) h = Unit {0}

  pub ReturnsAcknowledged-cases :
      {A : Type 0} (o : Outcome A) (h : History)
      → ((a : A) → o ≡ ok a → IsAcknowledged h)
      → ReturnsAcknowledged o h
  ReturnsAcknowledged-cases (ok a) h f = f a refl
  ReturnsAcknowledged-cases (thrown e) h f = tt

  pub send-Acknowledges : (payload : CallbackPayload) → Acknowledges (send env payload)
  send-Acknowledges payload w a e = elim (send-SendResult payload w) [
    | inl (valid, logged, conclusion) ↦
        let (response, reply, response_ok) = Concludes-reply conclusion e in
        record {
          payload = payload;
          before = w.history;
          response = response;
          last = logged;
          reply = reply;
          response_ok = response_ok;
        }
    | inr (invalid, same, (message, error)) ↦ absurd (not_both (sym e ∙ error))
  ]
    where
      not_both : {A : Type 0} {a : A} {x : Thrown} → ok a ≡ thrown x → ⊥
      not_both h = cc

  resume-Acknowledges :
      {A B : Type 0} (f : A → Action B) (o : Outcome A) (w : World) (b : B)
      → ((a : A) → Acknowledges (f a))
      → (resume f o w).0 ≡ ok b
      → IsAcknowledged (resume f o w).1.history
  unfolding resume
  resume-Acknowledges f (ok a) w b h e = h a w b e
  resume-Acknowledges f (thrown x) w b h e = cc

  pub bind-Acknowledges :
      {A B : Type 0} (m : Action A) (f : A → Action B)
      → ((a : A) → Acknowledges (f a))
      → Acknowledges (m >>= f)
  unfolding ◌>>=◌
  bind-Acknowledges m f h w b e = resume-Acknowledges f (m w).0 (m w).1 b h e

  pub seq-Acknowledges :
      {A B : Type 0} (m : Action A) (k : Action B) → Acknowledges k → Acknowledges (m >> k)
  unfolding ◌>>◌
  seq-Acknowledges m k h = bind-Acknowledges m (λ _. k) (λ _. h)

  returned_history :
      {A B : Type 0} (f : A → B) (o : Outcome A) (w : World) (b : B)
      → (resume (λ a. pure (f a)) o w).0 ≡ ok b
      → ((a : A) → o ≡ ok a → IsAcknowledged w.history)
      → IsAcknowledged (resume (λ a. pure (f a)) o w).1.history
  unfolding resume pure
  returned_history f (ok a) w b e h = h a refl
  returned_history f (thrown x) w b e h = cc

  -- Returning a value afterwards adds nothing.
  pub map-Acknowledges :
      {A B : Type 0} (m : Action A) (f : A → B)
      → Acknowledges m
      → Acknowledges (m >>= λ a. pure (f a))
  unfolding ◌>>=◌
  map-Acknowledges m f h w b e = returned_history f (m w).0 (m w).1 b e (h w)

  pub then_pure-Acknowledges :
      {A B : Type 0} (m : Action A) (b : B) → Acknowledges m → Acknowledges (m >> pure b)
  unfolding ◌>>◌
  then_pure-Acknowledges m b h = map-Acknowledges m (λ _. b) h

  pub if-Acknowledges :
      {A : Type 0} (c : Bool) (m k : Action A)
      → Acknowledges m
      → Acknowledges k
      → Acknowledges (if c then m else k)
  if-Acknowledges true m k h g = h
  if-Acknowledges false m k h g = g

  map-Concludes :
      {A B : Type 0} (f : A → B) {a : A} {r : Reply HttpResponse} {o : Outcome A} (w : World)
      → Concludes a r o
      → Concludes (f a) r (resume (λ x. pure (f x)) o w).0
  unfolding resume pure
  map-Concludes f w (on_ok r h) = on_ok r h
  map-Concludes f w (on_refusal r message h) = on_refusal r message h
  map-Concludes f w (on_failure cause message) = on_failure cause message

  map-world :
      {A B : Type 0} (f : A → B) (o : Outcome A) (w : World) → (resume (λ x. pure (f x)) o w).1 ≡ w
  unfolding resume pure
  map-world f (ok a) w = refl
  map-world f (thrown e) w = refl

  map-IsCallbackError :
      {A B : Type 0} (f : A → B) (o : Outcome A) (w : World)
      → IsCallbackError o
      → IsCallbackError (resume (λ x. pure (f x)) o w).0
  unfolding resume pure
  map-IsCallbackError f (ok a) w (message, h) = cc
  map-IsCallbackError f (thrown e) w (message, h) = (message, cc)

  pub map-SendResult :
      {A B : Type 0} (m : Action A) (f : A → B) (a : A) (payload : CallbackPayload) (w v : World)
      → SendResult a payload w (m v)
      → SendResult (f a) payload w ((m >>= λ x. pure (f x)) v)
  unfolding ◌>>=◌
  map-SendResult m f a payload w v (inl (valid, logged, c)) = inl (
    valid,
    ap (λ (u : World). u.history) (map-world f (m v).0 (m v).1) ∙ logged,
    map-Concludes f (m v).1 c,
  )
  map-SendResult m f a payload w v (inr (invalid, same, error)) = inr (
    invalid,
    ap (λ (u : World). u.history) (map-world f (m v).0 (m v).1) ∙ same,
    map-IsCallbackError f (m v).0 (m v).1 error,
  )
