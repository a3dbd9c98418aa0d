-- ===== src/Effect/Monad.antt =====
-- An async function of the adapter: it reads and extends the world, and returns or throws.
use cryptokorr.Common.{ℕ, Text, ◌∷◌}
use cryptokorr.Errors.{error_message}
use cryptokorr.Effect.Types.{
  Reply, answered, failed, Thrown, adapter, cryptographic, unexpected, Outcome, ok, thrown, Event,
  History, World, Env,
}

abbrev pub Action : Type 0 → Type 0
Action A = World → Outcome A × World

module _ {A : Type 0} where
  unfoldable pub pure : A → Action A
  pure a w = (ok a, w)

  unfoldable pub throw : Thrown → Action A
  throw e w = (thrown e, w)

-- What follows an `await`: the rest of the function, or nothing if the promise was rejected.
unfoldable pub resume : {A B : Type 0} → (A → Action B) → Outcome A → Action B
resume f (ok a) w = f a w
resume f (thrown e) w = (thrown e, w)

infixl 5 ◌>>=◌ ◌>>◌
unfoldable pub ◌>>=◌ : {A B : Type 0} → Action A → (A → Action B) → Action B
unfolding resume
◌>>=◌ m f w = resume f (m w).0 (m w).1

unfoldable pub ◌>>◌ : {A B : Type 0} → Action A → Action B → Action B
unfolding ◌>>=◌
m >> k = m >>= λ _. k

-- `err instanceof Error ? err.message : String(err)`
unfoldable pub message_of : Thrown → Text
message_of (adapter e) = error_message e
message_of (cryptographic code message) = message
message_of (unexpected message) = message

-- The `catch` clause, which is given the error's message.
unfoldable pub recover : {A : Type 0} → (Text → Action A) → Outcome A → Action A
unfolding message_of
recover handler (ok a) w = (ok a, w)
recover handler (thrown e) w = handler (message_of e) w

-- `try { m } catch (err) { handler(message) }`
unfoldable pub rethrow_as : {A : Type 0} → Action A → (Text → Action A) → Action A
unfolding recover
rethrow_as m handler w = recover handler (m w).0 (m w).1

-- A `catch` clause that looks at what was thrown.
unfoldable pub intercept : {A : Type 0} → (Thrown → Action A) → Outcome A → Action A
intercept handler (ok a) w = (ok a, w)
intercept handler (thrown e) w = handler e w

unfoldable pub try_catch : {A : Type 0} → Action A → (Thrown → Action A) → Action A
unfolding intercept
try_catch m handler w = intercept handler (m w).0 (m w).1

-- The settled promise, as a value or a throw.
unfoldable pub settle : {A : Type 0} → Reply A → Outcome A
settle (answered a) = ok a
settle (failed message) = thrown (unexpected message)

-- A call that leaves the adapter: it is logged, and answered in the light of what came before.
unfoldable pub call_out : {A : Type 0} → Event → (History → Reply A) → Action A
unfolding settle
call_out e ask w = (settle (ask w.history), record w { history = e ∷ w.history })

-- `new Date().toISOString()`
unfoldable pub now_iso : Env → Action Text
now_iso env w = (ok (env.clock w.history), w)

-- `Date.now()`
unfoldable pub now_ms : Env → Action ℕ
now_ms env w = (ok (env.clock_ms w.history), w)
