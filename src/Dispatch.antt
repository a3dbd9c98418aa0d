-- ===== src/Dispatch.antt =====
-- chain_adapter/src/dispatch: the handlers of the HTTP routes for dispatches.
pub mod Gates
pub mod Transfer
pub mod Swap
pub mod MorphoDeposit
pub mod InFlight
