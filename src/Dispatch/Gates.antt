-- ===== src/Dispatch/Gates.antt =====
-- The guards with which every handler of chain_adapter/src/dispatch begins.
use cryptokorr.Common.{
  Text, codes, text_eq_iff, ◌≡◌, refl, ◌⊎◌, Bool, true, false, arith, if◌then◌else◌,
}
use cryptokorr.Config.Chains.{
  base_chain, base_sepolia_chain, is_supported_chain, is_supported_swap_chain,
  is_supported_morpho_deposit_chain,
}
use cryptokorr.Config.Assets.{is_supported_asset}
use cryptokorr.Errors.{AdapterError, status_code}
use cryptokorr.Effect.{adapter, thrown, World, Action, throw}

-- The request is answered with a 400 or a 422, and the world is left as it was.
abbrev pub Refuses : {A : Type 0} → Action A → World → Type 0
Refuses m w =
    (e : AdapterError) × (m w ≡ (thrown (adapter e), w))
    × ((status_code e ≡ 400) ⊎ (status_code e ≡ 422))

pub throw-Refuses :
    {A : Type 0} (e : AdapterError) (w : World)
    → (status_code e ≡ 400) ⊎ (status_code e ≡ 422)
    → Refuses {A = A} (throw (adapter e)) w
unfolding throw
throw-Refuses e w s = (e, refl, s)

-- A guard refuses, or what it guards does.
pub guard-Refuses :
    {A : Type 0} (b : Bool) (m : Action A) (e : AdapterError) (w : World)
    → (status_code e ≡ 400) ⊎ (status_code e ≡ 422)
    → (b ≡ true → Refuses m w)
    → Refuses (if b then m else throw (adapter e)) w
guard-Refuses true m e w s h = h refl
guard-Refuses false m e w s h = throw-Refuses e w s

pub is_supported_chain_sound :
    (c : Text) → is_supported_chain c ≡ true → (c ≡ base_chain) ⊎ (c ≡ base_sepolia_chain)
unfolding is_supported_chain
is_supported_chain_sound c h =
    ground (arith, text_eq_iff c base_chain, text_eq_iff c base_sepolia_chain)

pub is_supported_chain_complete :
    (c : Text) → (c ≡ base_chain) ⊎ (c ≡ base_sepolia_chain) → is_supported_chain c ≡ true
unfolding is_supported_chain
is_supported_chain_complete c h =
    ground (arith, text_eq_iff c base_chain, text_eq_iff c base_sepolia_chain)

pub is_supported_swap_chain_sound :
    (c : Text) → is_supported_swap_chain c ≡ true → c ≡ base_sepolia_chain
unfolding is_supported_swap_chain
is_supported_swap_chain_sound c h = (text_eq_iff c base_sepolia_chain).0 h

pub is_supported_swap_chain_complete :
    (c : Text) → c ≡ base_sepolia_chain → is_supported_swap_chain c ≡ true
unfolding is_supported_swap_chain
is_supported_swap_chain_complete c h = (text_eq_iff c base_sepolia_chain).1 h

pub is_supported_morpho_deposit_chain_sound :
    (c : Text) → is_supported_morpho_deposit_chain c ≡ true → c ≡ base_sepolia_chain
unfolding is_supported_morpho_deposit_chain
is_supported_morpho_deposit_chain_sound c h = (text_eq_iff c base_sepolia_chain).0 h

pub is_supported_morpho_deposit_chain_complete :
    (c : Text) → c ≡ base_sepolia_chain → is_supported_morpho_deposit_chain c ≡ true
unfolding is_supported_morpho_deposit_chain
is_supported_morpho_deposit_chain_complete c h = (text_eq_iff c base_sepolia_chain).1 h

pub is_supported_asset_sound : (a : Text) → is_supported_asset a ≡ true → a ≡ codes "USDC"
unfolding is_supported_asset
is_supported_asset_sound a h = (text_eq_iff a (codes "USDC")).0 h

pub is_supported_asset_complete : (a : Text) → a ≡ codes "USDC" → is_supported_asset a ≡ true
unfolding is_supported_asset
is_supported_asset_complete a h = (text_eq_iff a (codes "USDC")).1 h
