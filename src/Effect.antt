-- ===== src/Effect.antt =====
-- The effects of the adapter. `Env` is everything outside chain_adapter/src: viem's encoders and
-- hash, the bundler, the chain, the signer's key, Phoenix and the clock. An answer of the outside
-- may depend on all that happened before it, which `World.history` records, newest event first.
mod Types
mod Monad
pub use Types.*
unfoldable pub use Monad.{
  pure, throw, ◌>>=◌, ◌>>◌, rethrow_as, resume, recover, settle, message_of, call_out, now_iso,
  now_ms, intercept, try_catch,
}
pub use Monad.{Action}
