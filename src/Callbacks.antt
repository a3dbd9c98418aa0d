-- ===== src/Callbacks.antt =====
-- chain_adapter/src/callbacks/client.ts: ids and delivery of callbacks.
pub mod Client
unfoldable pub use Client.*
