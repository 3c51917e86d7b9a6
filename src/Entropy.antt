-- ===== src/Entropy.antt =====
-- src/entropy.rs, and `transaction_digest` and `random_preimage` of src/backend.rs and
-- src/engine.rs: what the engine takes from the hash, the random source and the wallet.
use qubic_random_client.Base.{ℕ, List, Option}

-- Code that the repository only calls. A draw is a function of how many came before it.
pub record External : Type 0 where
  -- `tiny_keccak::KangarooTwelve` with an empty customisation string and 32 bytes of output.
  pub kangaroo_twelve : List ℕ → List ℕ
  -- `OsRng::fill_bytes` on 512 bytes.
  pub fill_bytes : ℕ → List ℕ
  -- `scapi::build_ticket_tx_bytes` for the wallet: contract index, amount, tick, procedure, payload.
  pub build_ticket_tx_bytes : ℕ → ℕ → ℕ → ℕ → List ℕ → Option (List ℕ)

-- `commit_digest`.
unfoldable pub commit_digest : External → List ℕ → List ℕ
commit_digest x bits = x.kangaroo_twelve bits

-- `transaction_digest`.
unfoldable pub transaction_digest : External → List ℕ → List ℕ
transaction_digest x bytes = x.kangaroo_twelve bytes

-- `random_preimage`, through `fill_secure_bits`.
unfoldable pub random_preimage : External → ℕ → List ℕ
random_preimage x drawn = x.fill_bytes drawn
