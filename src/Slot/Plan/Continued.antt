-- ===== src/Slot/Plan/Continued.antt =====
-- src/engine.rs: one continuation of a chain, and what the wallet signs for a call.
use qubic_random_client.Base.{
  ℕ, ◌+◌, ◌%◌, ◌++◌, ◌∷◌, [], false, ◌≡◌, refl, List, none, some, arith, inl, inr, Option-cases,
}
use qubic_random_client.Contract.{SlotKey, RevealAndCommitInput, encode}
use qubic_random_client.Entropy.{External, commit_digest, random_preimage}
use qubic_random_client.Chain.{Chain, ready, reveal_and_commit}
use qubic_random_client.Slot.Plan.{continued, build_transaction, or_refuse, signed}

-- One continuation of a chain, with the preimage drawn for it: a new call, a round after the last,
-- that reveals the outstanding preimage and commits to the new one, which takes its place.
pub record IsContinued (x : External) (collateral : ℕ) (key : SlotKey) (preimage : List ℕ)
    (c d : Chain) : Type 0 where
  pub bytes : List ℕ
  pub signed :
      x.build_ticket_tx_bytes 3 collateral
        (c.last_target + 3)
        1
        (c.outstanding_preimage ++ x.kangaroo_twelve preimage)
      ≡ some bytes
  pub on_stream : (c.last_target + 3) % 3 ≡ key.stream
  pub first : d.first_target ≡ c.first_target
  pub last : d.last_target ≡ c.last_target + 3
  pub outstanding : d.outstanding_preimage ≡ preimage
  pub confirmed : d.confirmed_through ≡ c.confirmed_through
  pub suspicion : d.status_suspicion ≡ c.status_suspicion
  pub calls :
      d.calls
      ≡ c.calls
        ++ (record {
          target_tick = c.last_target + 3;
          tx_bytes = bytes;
          kind = reveal_and_commit;
          state = ready;
          broadcast = none;
          redundant_attempted = false;
        }
            ∷ [])

-- What a signed transaction says of the wallet's answer.
pub build_transaction-signed :
    (x : External) (collateral target : ℕ) (input : RevealAndCommitInput) (key : SlotKey)
    (bytes : List ℕ)
    → build_transaction x collateral input target key ≡ signed bytes
    → (x.build_ticket_tx_bytes 3 collateral target 1 (input.reveal ++ input.commit) ≡ some bytes)
      × (target % 3 ≡ key.stream)
unfolding build_transaction or_refuse encode
build_transaction-signed x collateral target input key bytes e =
    elim (Option-cases
      (x.build_ticket_tx_bytes 3 collateral target 1 (input.reveal ++ input.commit))) [
        | inl n ↦ absurd (ground arith)
        | inr (b, n) ↦ (ground arith, ground arith)
      ]

pub continued-IsContinued :
    (x : External) (collateral n target : ℕ) (key : SlotKey) (c : Chain) (bytes : List ℕ)
    → target ≡ c.last_target + 3
    → build_transaction x collateral
        (record { reveal = c.outstanding_preimage; commit = commit_digest x (random_preimage x n) })
        target
        key
      ≡ signed bytes
    → IsContinued x collateral key
        (x.fill_bytes n)
        c
        (continued target (random_preimage x n) bytes c)
unfolding commit_digest random_preimage
continued-IsContinued x collateral n target key c bytes t built =
    let (wallet, stream) = build_transaction-signed x collateral target _ key bytes built in
    record {
      bytes = bytes;
      signed = rw (← t) wallet;
      on_stream = rw (← t) stream;
      first = refl;
      last = t;
      outstanding = refl;
      confirmed = refl;
      suspicion = refl;
      calls = rw t refl;
    }
