-- ===== src/Execution.antt =====
-- chain_adapter/src/chains/base: what the adapter does for an accepted dispatch.
pub mod Pipeline
pub mod Protocol
pub mod Aborts
pub mod Returned
pub mod Transfer
pub mod Swap
pub mod Morpho
