-- ===== src/Engine/Ledger.antt =====
-- src/engine.rs: within an epoch the broadcasts of a stream for one target carry one transaction.
pub mod Epochs
pub mod Cycles
pub mod Histories
use qubic_random_client.Base.{
  ℕ, suc, ◌≤◌, ◌<◌, ◌≡◌, ◌≢◌, ◌⊎◌, refl, ap, ◌∙◌, List, [], ◌∷◌, Option, none, some, arith, All,
  All-map, inl, inr, Option-cases, Bool, true, false, Bool-cases, ◌||◌, ◌==◌,
}
use qubic_random_client.Entropy.{External}
use qubic_random_client.Slot.{ManagedSlot, Focus, Attempt, Broadcast, ◌>>=◌, >>=-keeps}
use qubic_random_client.Slot.Invariant.{IsSlot}
use qubic_random_client.Slot.Deliver.Timely.{IsTimely}
use qubic_random_client.Slot.Deliver.Recorded.{IsRecorded, Agreeing, Remembers, Elsewhere}
use qubic_random_client.Engine.{Engine, focus, absorb, for_slots, each_slot}
use qubic_random_client.Engine.Handlers.{Keeps, IsHandled}
use qubic_random_client.Engine.Recorded.{Records}
use qubic_random_client.Engine.Invariant.{OnStreams, streams, IsEngine, each_slot-IsEngine}

-- Streams ascend strictly, from the bound on.
abbrev pub Rising : ℕ → List ℕ → Type 0
Rising b [] = Unit {0}
Rising b (k ∷ ks) = (b ≤ k) × Rising (suc k) ks

-- The broadcasts agree, and each slot knows those of its stream.
pub record IsLedger (slots : List ManagedSlot) (bs : List Broadcast) : Type 0 where
  pub agreeing : Agreeing bs
  pub known : All (λ s. All (Remembers s) bs) slots

-- The slots that a loop has passed are on earlier streams.
abbrev Passed : ℕ → List Broadcast → ManagedSlot → Type 0
Passed b bs s = (s.key.stream < b) × All (Remembers s) bs

OnStreams-Elsewhere :
    (k b : ℕ) (ks : List ℕ) (slots : List ManagedSlot) (bs : List Broadcast)
    → k < b
    → Rising b ks
    → OnStreams ks slots
    → All (λ s. All (Remembers s) bs) slots
    → All (Elsewhere k bs) slots
OnStreams-Elsewhere k b [] [] bs l r h a = tt
OnStreams-Elsewhere k b [] (s ∷ ss) bs l r h a = absurd h
OnStreams-Elsewhere k b (j ∷ ks) [] bs l r h a = absurd h
OnStreams-Elsewhere k b (j ∷ ks) (s ∷ ss) bs l r h a =
    let e = h.1 in
    let from = r.0 in
    (
      ((λ m. absurd (omega arith)), a.0),
      OnStreams-Elsewhere k (suc j) ks ss bs (omega arith) r.1 h.2 a.1,
    )

-- One handler, as the other slots see it.
handled-Ledger :
    (op : Focus → Attempt Focus) (s : ManagedSlot) (others : List ManagedSlot) (e : Engine)
    → Records op
    → IsSlot s
    → Agreeing e.outbox
    → All (Remembers s) e.outbox
    → All (Elsewhere s.key.stream e.outbox) others
    → IsRecorded (op (focus e s)).0.slot others (op (focus e s)).0.outbox
handled-Ledger op s others e r v a k o =
    r others (focus e s) v (record { agreeing = a; known = k; elsewhere = o })

pub for_slots-Ledger :
    (op : Focus → Attempt Focus) (b : ℕ) (ks : List ℕ) (passed slots : List ManagedSlot)
    (e : Engine)
    → Keeps op
    → Records op
    → Rising b ks
    → OnStreams ks slots
    → All IsTimely e.outbox
    → All (Passed b e.outbox) passed
    → IsLedger slots e.outbox
    → IsLedger (for_slots op slots e).0 (for_slots op slots e).1.outbox
      × All (λ s. All (Remembers s) (for_slots op slots e).1.outbox) passed
unfolding for_slots
for_slots-Ledger op b [] passed [] e keeps records r h t p l =
    (l, All-map _ _ (λ s q. q.1) passed p)
for_slots-Ledger op b [] passed (s ∷ ss) e keeps records r h t p l = absurd h
for_slots-Ledger op b (k ∷ ks) passed [] e keeps records r h t p l = absurd h
for_slots-Ledger op b (k ∷ ks) passed (s ∷ ss) e keeps records r h t p l =
    let f = (op (focus e s)).0 in
    let own = h.1 in
    let from = r.0 in
    let before : IsHandled k (focus e s) = record {
      slot_valid = h.0;
      on_stream = own;
      timely = t;
    } in
    let after = keeps k (focus e s) before in
    let stream = after.on_stream in
    let earlier : All (Elsewhere s.key.stream e.outbox) passed =
      All-map _ _ (λ o q. ((λ m. let n = q.0 in absurd (omega arith)), q.1)) passed p in
    let later : All (Elsewhere s.key.stream e.outbox) ss =
      OnStreams-Elsewhere s.key.stream (suc k) ks ss e.outbox (omega arith) r.1 h.2 l.known.1 in
    let back = handled-Ledger op s passed e records h.0 l.agreeing l.known.0 earlier in
    let ahead = handled-Ledger op s ss e records h.0 l.agreeing l.known.0 later in
    let passed' : All (Passed (suc k) f.outbox) (f.slot ∷ passed) =
      ((omega arith, back.known), All-zip passed p back.elsewhere) in
    let ledger : IsLedger ss f.outbox = record {
      agreeing = back.agreeing;
      known = All-map _ _ (λ o q. q.1) ss ahead.elsewhere;
    } in
    let rest =
      for_slots-Ledger op (suc k) ks (f.slot ∷ passed) ss (absorb f e) keeps records r.1 h.2
        after.timely passed' ledger in
    elim (Option-cases (op (focus e s)).1) [
      | inl n ↦
          rw (n, for_slots)
            (record { agreeing = rest.0.agreeing; known = (rest.1.0, rest.0.known) }, rest.1.1)
      | inr (x, n) ↦
          rw (n, for_slots)
            (
              record { agreeing = back.agreeing; known = (back.known, ledger.known) },
              All-map _ _ (λ o q. q.1) passed back.elsewhere,
            )
    ]
  where
    All-zip :
        (os : List ManagedSlot)
        → All (Passed b e.outbox) os
        → All (Elsewhere (op (focus e s)).0.slot.key.stream (op (focus e s)).0.outbox) os
        → All (Passed (suc k) (op (focus e s)).0.outbox) os
    All-zip [] q w = tt
    All-zip (o ∷ os) q w =
        let n = q.0.0 in let from = r.0 in ((omega arith, w.0.1), All-zip os q.1 w.1)
