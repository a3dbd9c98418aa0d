-- ===== src/Contracts.antt =====
-- chain_adapter/src/contracts/schemas.ts: the envelopes between Phoenix and the adapter, and the
-- checks that their schemas make. A schema's structural part (which keys there are and of which
-- type) is the record; what it says beyond that (`min(1)`, `regex`, `literal`, `refine`) is the
-- Boolean function beside the record. `uuid()` and `datetime()` are zod's, so they are parameters.
pub mod Primitives
pub mod Amounts
pub mod Dispatch
pub mod Permission
pub mod Callback
