-- ===== src/Backend.antt =====
-- src/backend.rs: what the engine is told by a network backend.
pub mod Hex
pub mod Clients
pub mod Rpc
pub mod BobNode
pub mod Qln
pub mod Lawful
pub mod Create
use qubic_random_client.Base.{
  ℕ, Bool, true, false, ◌&&◌, ◌||◌, List, [], ◌∷◌, Option, none, some, ◌==◌,
}

pub record TickInfo : Type 0 where
  pub epoch : ℕ
  pub tick : ℕ
  pub initial_tick : ℕ
  pub tick_duration_ms : ℕ

pub record TickTransactions : Type 0 where
  pub has_transactions : Bool
  pub transaction_digests : Option (List (List ℕ))

-- Equality of byte arrays.
abbrev pub bytes_eq : List ℕ → List ℕ → Bool
bytes_eq [] [] = true
bytes_eq (x ∷ xs) (y ∷ ys) = (x == y) && bytes_eq xs ys
bytes_eq _ _ = false

abbrev pub has_digest : List ℕ → List (List ℕ) → Bool
has_digest digest [] = false
has_digest digest (d ∷ ds) = bytes_eq d digest || has_digest digest ds

-- `TickTransactions::contains`.
unfoldable pub contains_digest : TickTransactions → List ℕ → Option Bool
contains_digest t digest = elim t.transaction_digests [
  | none ↦ none
  | some digests ↦ some (has_digest digest digests)
]
