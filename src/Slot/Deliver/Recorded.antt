-- ===== src/Slot/Deliver/Recorded.antt =====
-- src/engine.rs, `dispatch_calls`: a broadcast agrees with those of the slot that started before.
use qubic_random_client.Base.{
  ℕ, suc, ◌≤◌, ◌≡◌, ◌≢◌, refl, ap, sym, ◌∙◌, List, [], ◌∷◌, some, arith, All, All-map, inl, inr,
  Bool-cases, Option-cases,
}
use qubic_random_client.Entropy.{External}
use qubic_random_client.Chain.{Chain, PlannedCall}
use qubic_random_client.Slot.{
  Focus, Broadcast, SlotState, ManagedSlot, waiting, starting, active, restarting, draining,
  drained,
}
use qubic_random_client.Slot.Shape.{
  Shape, SignedCall, Ascends, signed_call, signed_calls, shape_of, shape_in,
}
use qubic_random_client.Slot.Invariant.{Stands, IsSlot}
use qubic_random_client.Slot.Ledger.{Knows, Past, Signs, signed_of}
use qubic_random_client.Slot.Deliver.Timely.{mark_failure-outbox}
use qubic_random_client.Slot.Deliver.{
  dispatch_call, dispatch_list, dispatch_calls, finish_dispatch, Round, Sweep, round_of, sweep_of,
  spawned,
}
use qubic_random_client.Slot.Deliver.Due.{is_due, dispatch_call-outbox}
use qubic_random_client.Slot.Deliver.Ledger.{dispatch_calls-Knows}
use qubic_random_client.Slot.Keys.{dispatch_calls-key}

-- Two broadcasts of a stream for one target carry the same transaction.
abbrev pub Same : Broadcast → Broadcast → Type 0
Same b c = b.stream ≡ c.stream → b.target_tick ≡ c.target_tick → b.tx_bytes ≡ c.tx_bytes

abbrev pub Agreeing : List Broadcast → Type 0
Agreeing [] = Unit {0}
Agreeing (b ∷ bs) = All (Same b) bs × Agreeing bs

-- The slot knows the broadcast, if it is of its stream.
abbrev pub Remembers : ManagedSlot → Broadcast → Type 0
Remembers s b = b.stream ≡ s.key.stream → Knows b.target_tick b.tx_bytes s

-- A slot of another stream that knows the broadcasts.
abbrev pub Elsewhere : ℕ → List Broadcast → ManagedSlot → Type 0
Elsewhere stream bs s = (s.key.stream ≢ stream) × All (Remembers s) bs

Ascends-from : (b : ℕ) (cs : List SignedCall) → Ascends b cs → All (λ c. b ≤ c.target_tick) cs
Ascends-from b [] a = tt
Ascends-from b (c ∷ cs) a =
    (a.0, All-map _ _ (λ d l. omega arith) cs (Ascends-from (suc c.target_tick) cs a.1))

Signs-other :
    (t : ℕ) (bytes : List ℕ) (cs : List SignedCall)
    → All (λ c. suc t ≤ c.target_tick) cs
    → All (Signs t bytes) cs
Signs-other t bytes cs h = All-map _ _ (λ c l e. absurd (omega arith)) cs h

-- Ascending calls have a target each.
ascending-Signs :
    (b : ℕ) (cs : List SignedCall)
    → Ascends b cs
    → All (λ c. All (Signs c.target_tick c.tx_bytes) cs) cs
ascending-Signs b [] a = tt
ascending-Signs b (d ∷ cs) a =
    let above = Ascends-from (suc d.target_tick) cs a.1 in
    (
      ((λ e. refl), Signs-other d.target_tick d.tx_bytes cs above),
      both cs above (ascending-Signs (suc d.target_tick) cs a.1),
    )
  where
    both :
        (es : List SignedCall)
        → All (λ c. suc d.target_tick ≤ c.target_tick) es
        → All (λ c. All (Signs c.target_tick c.tx_bytes) cs) es
        → All (λ c. All (Signs c.target_tick c.tx_bytes) (d ∷ cs)) es
    both [] h k = tt
    both (e ∷ es) h k = let l = h.0 in (((λ q. absurd (omega arith)), k.0), both es h.1 k.1)

-- The calls that a slot signed lie before those that it may still sign.
Past-own :
    (stream : ℕ) (state : SlotState) (s : Shape) (r : ℕ)
    → Stands stream state (some s) r
    → All (λ c. Past state (some s) r c.target_tick) s.signed
Past-own stream (starting _) s r h = All-map _ _ (λ c f. f.within) s.signed h.0.fit
Past-own stream active s r h = All-map _ _ (λ c f. f.within) s.signed h.fit
Past-own stream (restarting _ _ _ _) s r h = All-map _ _ (λ c f. f.within) s.signed h.0.fit
Past-own stream (draining _ _) s r h = All-map _ _ (λ c f. tt) s.signed h.0.fit
Past-own stream (waiting _ _) s r h = absurd h
Past-own stream (drained _) s r h = absurd h

Stands-ascending :
    (stream : ℕ) (state : SlotState) (s : Shape) (r : ℕ)
    → Stands stream state (some s) r
    → Ascends 0 s.signed
Stands-ascending stream (starting _) s r h = h.0.ascending
Stands-ascending stream active s r h = h.ascending
Stands-ascending stream (restarting _ _ _ _) s r h = h.0.ascending
Stands-ascending stream (draining _ _) s r h = h.0.ascending
Stands-ascending stream (waiting _ _) s r h = absurd h
Stands-ascending stream (drained _) s r h = absurd h

All-both :
    (P Q R : SignedCall → Type 0) (cs : List SignedCall)
    → ((c : SignedCall) → P c → Q c → R c)
    → All P cs
    → All Q cs
    → All R cs
All-both P Q R [] f p q = tt
All-both P Q R (c ∷ cs) f p q = (f c p.0 q.0, All-both P Q R cs f p.1 q.1)

-- A slot knows the calls that it holds.
own-Knows :
    (s : ManagedSlot) (c : Chain)
    → s.chain ≡ some c
    → IsSlot s
    → All (λ d. Knows d.target_tick d.tx_bytes s) (signed_calls c.calls)
own-Knows s c e v =
    let stands : Stands s.key.stream s.state (some (shape_of c)) s.restart_at = rw e at v.stands in
    let past = Past-own s.key.stream s.state (shape_of c) s.restart_at stands in
    let ascending = Stands-ascending s.key.stream s.state (shape_of c) s.restart_at stands in
    All-both _ _ _ (signed_calls c.calls) (λ d p q. record { past = rw e p; same = rw e q }) past
      (ascending-Signs 0 (signed_calls c.calls) ascending)

-- The broadcasts agree with each other, and every slot knows those of its stream.
pub record IsRecorded (s : ManagedSlot) (others : List ManagedSlot) (bs : List Broadcast)
    : Type 0 where
  pub agreeing : Agreeing bs
  pub known : All (Remembers s) bs
  pub elsewhere : All (Elsewhere s.key.stream bs) others

module _ (s : ManagedSlot) (others : List ManagedSlot) where
  -- A call that the slot holds, to be sent.
  Same-call :
      (b : Broadcast) (c : SignedCall) (bs : List Broadcast)
      → b.stream ≡ s.key.stream
      → b.target_tick ≡ c.target_tick
      → b.tx_bytes ≡ c.tx_bytes
      → ((P : SignedCall → Type 0) → All P (signed_of (shape_in s.chain)) → P c)
      → All (Remembers s) bs
      → All (Same b) bs
  Same-call b c bs k t y within h =
      All-map _ _
        (λ o r e m.
          let old = r (sym e ∙ k) in
          y ∙ within (Signs o.target_tick o.tx_bytes) old.same (sym t ∙ m))
        bs h

  add-IsRecorded :
      (r : Round) (c : PlannedCall) (bs : List Broadcast)
      → r.stream ≡ s.key.stream
      → ((P : SignedCall → Type 0) → All P (signed_of (shape_in s.chain)) → P (signed_call c))
      → Knows c.target_tick c.tx_bytes s
      → IsRecorded s others bs
      → IsRecorded s others (spawned r c ∷ bs)
  unfolding spawned
  add-IsRecorded r c bs k within own h = record {
    agreeing = (Same-call (spawned r c) (signed_call c) bs k refl refl within h.known, h.agreeing);
    known = ((λ e. own), h.known);
    elsewhere =
        All-map _ _ (λ o p. (p.0, ((λ e. absurd (p.0 (sym e ∙ k))), p.1))) others h.elsewhere;
  }

  dispatch_call-IsRecorded :
      (x : External) (r : Round) (c : PlannedCall) (w : Sweep)
      → r.stream ≡ s.key.stream
      → ((P : SignedCall → Type 0) → All P (signed_of (shape_in s.chain)) → P (signed_call c))
      → Knows c.target_tick c.tx_bytes s
      → IsRecorded s others w.outbox
      → IsRecorded s others (dispatch_call x r c w).1.outbox
  dispatch_call-IsRecorded x r c w k within own h =
      rw (dispatch_call-outbox x r c w) (elim (Bool-cases (is_due r c)) [
        | inl d ↦ rw d (add-IsRecorded r c w.outbox k within own h)
        | inr d ↦ rw d h
      ])

  dispatch_list-IsRecorded :
      (x : External) (r : Round) (cs : List PlannedCall) (w : Sweep)
      → r.stream ≡ s.key.stream
      → ((P : SignedCall → Type 0) → All P (signed_of (shape_in s.chain)) → All P (signed_calls cs))
      → All (λ d. Knows d.target_tick d.tx_bytes s) (signed_calls cs)
      → IsRecorded s others w.outbox
      → IsRecorded s others (dispatch_list x r cs w).1.outbox
  unfolding dispatch_list
  dispatch_list-IsRecorded x r [] w k within own h = h
  dispatch_list-IsRecorded x r (c ∷ cs) w k within own h =
      dispatch_list-IsRecorded x r cs (dispatch_call x r c w).1 k (λ P a. (within P a).1) own.1
        (dispatch_call-IsRecorded x r c w k (λ P a. (within P a).0) own.0 h)

-- What the slot signed before the round is recorded in the round's broadcasts.
round-IsRecorded :
    (x : External) (tick duration : ℕ) (s : ManagedSlot) (others : List ManagedSlot) (f : Focus)
    → s.chain ≡ f.slot.chain
    → s.key.stream ≡ f.slot.key.stream
    → IsSlot s
    → IsRecorded s others f.outbox
    → IsRecorded s others (dispatch_calls x tick duration f).outbox
unfolding dispatch_calls finish_dispatch
round-IsRecorded x tick duration s others f same k v h = elim (Option-cases f.slot.chain) [
  | inl e ↦ rw (e, dispatch_calls) h
  | inr (c, e) ↦
      let held : s.chain ≡ some c = same ∙ e in
      rw (e, dispatch_calls)
        (rw (mark_failure-outbox _ _) (
          dispatch_list-IsRecorded s others x (round_of f.slot c tick duration) c.calls (sweep_of f)
            (sym k) (λ P a. rw held at a) (own-Knows s c held v) h))
]

-- A slot that still knows what it knew.
pub IsRecorded-slot :
    (s s' : ManagedSlot) (others : List ManagedSlot) (bs : List Broadcast)
    → s'.key ≡ s.key
    → ((t : ℕ) (bytes : List ℕ) → Knows t bytes s → Knows t bytes s')
    → IsRecorded s others bs
    → IsRecorded s' others bs
IsRecorded-slot s s' others bs e k h = record {
  agreeing = h.agreeing;
  known =
      All-map _ _ (λ b r m. k b.target_tick b.tx_bytes (r (m ∙ ap (λ q. q.stream) e))) bs h.known;
  elsewhere = All-map _ _ (λ o p. ((λ m. p.0 (m ∙ ap (λ q. q.stream) e)), p.1)) others h.elsewhere;
}

pub dispatch_calls-IsRecorded :
    (x : External) (tick duration : ℕ) (others : List ManagedSlot) (f : Focus)
    → IsSlot f.slot
    → IsRecorded f.slot others f.outbox
    → IsRecorded
        (dispatch_calls x tick duration f).slot
        others
        (dispatch_calls x tick duration f).outbox
dispatch_calls-IsRecorded x tick duration others f v h =
    IsRecorded-slot f.slot _ others _ (dispatch_calls-key x tick duration f)
      (λ t bytes k. dispatch_calls-Knows t bytes x tick duration f k)
      (round-IsRecorded x tick duration f.slot others f refl refl v h)
