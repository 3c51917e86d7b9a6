-- ===== src/Contract.antt =====
-- src/contract.rs: the provider status that the contract reports, and the keys of its slots.
pub mod Codec
use qubic_random_client.Base.{ℕ, Bool, ◌&&◌, List, ◌++◌, Option, ◌==◌, find}

-- `u8` in both fields.
pub record SlotKey : Type 0 where
  pub stream : ℕ
  pub collateral_tier : ℕ

pub record ProviderSlot : Type 0 where
  pub key : SlotKey
  pub locked_collateral : ℕ
  pub contributed_to_entropy : Bool
  pub last_update_tick : ℕ

pub record ProviderStatus : Type 0 where
  pub slots : List ProviderSlot

-- The derived `==` of `SlotKey`.
abbrev pub key_eq : SlotKey → SlotKey → Bool
key_eq a b = (a.stream == b.stream) && (a.collateral_tier == b.collateral_tier)

-- `ProviderStatus::slot`.
unfoldable pub slot : SlotKey → ProviderStatus → Option ProviderSlot
slot key status = find (λ s. key_eq s.key key) status.slots

-- `[u8; 512]` and `[u8; 32]` as lists of bytes.
pub record RevealAndCommitInput : Type 0 where
  pub reveal : List ℕ
  pub commit : List ℕ

-- `RevealAndCommitInput::encode`.
unfoldable pub encode : RevealAndCommitInput → List ℕ
encode input = input.reveal ++ input.commit
