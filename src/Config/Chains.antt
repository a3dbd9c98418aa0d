-- ===== src/Config/Chains.antt =====
-- chain_adapter/src/config/chains.ts: the chain allowlists.
use cryptokorr.Common.{Text, codes, text_eq, Bool, ◌||◌}

abbrev pub base_chain : Text
base_chain = codes "base"

abbrev pub base_sepolia_chain : Text
base_sepolia_chain = codes "base-sepolia"

unfoldable pub is_supported_chain : Text → Bool
is_supported_chain chain = text_eq chain base_chain || text_eq chain base_sepolia_chain

unfoldable pub is_supported_swap_chain : Text → Bool
is_supported_swap_chain chain = text_eq chain base_sepolia_chain

unfoldable pub is_supported_morpho_deposit_chain : Text → Bool
is_supported_morpho_deposit_chain chain = text_eq chain base_sepolia_chain
