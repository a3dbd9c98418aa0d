-- ===== src/Config.antt =====
-- chain_adapter/src/config: the chains and the assets that the adapter supports, the operator's
-- signer, and the configuration that is loaded from the environment.
pub mod Chains
pub mod Assets
pub mod Operator
pub mod Loading
