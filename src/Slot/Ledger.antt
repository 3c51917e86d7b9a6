-- ===== src/Slot/Ledger.antt =====
-- src/engine.rs: what a slot still knows of a broadcast that it started before.
use qubic_random_client.Base.{
  ℕ, ◌≤◌, ◌<◌, ◌≡◌, List, [], ◌∷◌, ◌++◌, Option, none, some, All, All-append, arith, Bool,
}
use qubic_random_client.Chain.{Chain}
use qubic_random_client.Slot.{
  SlotState, ManagedSlot, Focus, waiting, starting, active, restarting, lose_chain,
}
use qubic_random_client.Slot.Shape.{Shape, SignedCall, shape_in}
use qubic_random_client.Slot.Invariant.{IsSlot}

-- A target that lies before any that the slot may still sign a call for. A slot that drains signs
-- no more calls.
abbrev pub Past : SlotState → Option Shape → ℕ → ℕ → Type 0
Past (waiting _ _) chain restart_at t = t < restart_at
Past (starting _) (some s) restart_at t = t ≤ s.last_target
Past active (some s) restart_at t = t ≤ s.last_target
Past (restarting _ _ _ _) (some s) restart_at t = t ≤ s.last_target
Past _ chain restart_at t = Unit {0}

abbrev pub signed_of : Option Shape → List SignedCall
signed_of none = []
signed_of (some s) = s.signed

abbrev pub Signs : ℕ → List ℕ → SignedCall → Type 0
Signs t bytes c = c.target_tick ≡ t → c.tx_bytes ≡ bytes

-- The slot plans no call for the target any more, and those that it holds have these bytes.
pub record Knows (t : ℕ) (bytes : List ℕ) (s : ManagedSlot) : Type 0 where
  pub past : Past s.state (shape_in s.chain) s.restart_at t
  pub same : All (Signs t bytes) (signed_of (shape_in s.chain))

-- A slot that plans calls.
abbrev pub IsPlanningState : SlotState → Type 0
IsPlanningState (starting _) = Unit
IsPlanningState active = Unit
IsPlanningState _ = ⊥

module _ (t : ℕ) (bytes : List ℕ) where
  pub Knows-same_shape :
      (s : ManagedSlot) (chain : Option Chain)
      → shape_in chain ≡ shape_in s.chain
      → Knows t bytes s
      → Knows t bytes (record s { chain = chain })
  Knows-same_shape s chain e k = record { past = rw e k.past; same = rw e k.same }

  -- A call for a later target is another call.
  pub Signs_later : (c : SignedCall) → t < c.target_tick → Signs t bytes c
  Signs_later c h e = absurd (omega arith)

  pub Signs-snoc :
      (cs : List SignedCall) (c : SignedCall)
      → t < c.target_tick
      → All (Signs t bytes) cs
      → All (Signs t bytes) (cs ++ (c ∷ []))
  Signs-snoc cs c h k = All-append (Signs t bytes) cs (c ∷ []) k (Signs_later c h, tt)

  pub lose_chain-Knows :
      (after : ℕ) (observed : Bool) (f : Focus)
      → IsPlanningState f.slot.state
      → IsSlot f.slot
      → Knows t bytes f.slot
      → Knows t bytes (lose_chain after observed f).slot
  unfolding lose_chain
  lose_chain-Knows after observed f p v k = ground arith
