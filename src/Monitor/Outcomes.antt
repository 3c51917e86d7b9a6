-- ===== src/Monitor/Outcomes.antt =====
-- src/engine.rs, `record_send_outcome`: the counters and the outcomes of the targets.
use qubic_random_client.Base.{
  ℕ, ◌+◌, ◌≤◌, ◌<◌, ◌≡◌, refl, Bool, true, false, List, [], ◌∷◌, Option, none, some, arith, inl,
  inr, Bool-cases, lookup, insert_entry, Above, if◌then◌else◌, u64_max, length,
}
use qubic_random_client.Monitor.{
  Monitor, SendOutcome, SendStats, ok, failed, empty, increment, decrement, transition_allowed,
  record_send_outcome, decrement_previous,
}

abbrev pub same : SendOutcome → SendOutcome → Bool
same ok ok = true
same failed failed = true
same empty empty = true
same _ _ = false

-- How many targets have an outcome.
abbrev pub tally : SendOutcome → List (ℕ × SendOutcome) → ℕ
tally o [] = 0
tally o ((t, p) ∷ m) = (if same p o then 1 else 0) + tally o m

-- The contribution of a target that has one.
abbrev one_if : SendOutcome → Option SendOutcome → ℕ
one_if o none = 0
one_if o (some p) = if same p o then 1 else 0

-- Keys ascend.
abbrev pub IsAscending : List (ℕ × SendOutcome) → Type 0
IsAscending [] = Unit {0}
IsAscending ((k, v) ∷ m) = Above k m

lookup-below : (t b : ℕ) (m : List (ℕ × SendOutcome)) → Above b m → t ≤ b → lookup t m ≡ none
lookup-below t b [] a l = refl
lookup-below t b ((k, v) ∷ m) a l = ground (arith, lookup-below t k m a.1)

tally-insert :
    (o : SendOutcome) (t b : ℕ) (v : SendOutcome) (m : List (ℕ × SendOutcome))
    → Above b m
    → tally o (insert_entry t v m) + one_if o (lookup t m) ≡ tally o m + one_if o (some v)
tally-insert o t b v [] a = omega arith
tally-insert o t b v ((k, w) ∷ m) a =
    ground (arith, tally-insert o t k v m a.1, lookup-below t k m a.1)

Above-insert :
    (t b : ℕ) (v : SendOutcome) (m : List (ℕ × SendOutcome))
    → Above b m
    → b < t
    → Above b (insert_entry t v m)
Above-insert t b v [] a l = (l, tt)
Above-insert t b v ((k, w) ∷ m) a l = ground (arith, Above-insert t k v m a.1)

abbrev pub sends : SendOutcome → SendStats → ℕ
sends ok s = s.ok_sends
sends failed s = s.failed_sends
sends empty s = s.empty_sends

-- The outcomes have ascending keys, and each counter is its start plus the targets it counts.
pub record Tallied (base : SendStats) (m : Monitor) : Type 0 where
  pub ascending : IsAscending m.send_outcomes
  pub counts : (o : SendOutcome) → sends o m.send_stats ≡ sends o base + tally o m.send_outcomes

-- The counters that are started from have room for one target more than there are.
abbrev pub HasRoom : SendStats → Monitor → Type 0
HasRoom base m = (o : SendOutcome) → sends o base + length m.send_outcomes < u64_max

tally-length : (o : SendOutcome) (m : List (ℕ × SendOutcome)) → tally o m ≤ length m
tally-length o [] = omega arith
tally-length o ((k, v) ∷ m) = ground (arith, tally-length o m)

tally-start :
    (o : SendOutcome) (t : ℕ) (v : SendOutcome) (m : List (ℕ × SendOutcome))
    → IsAscending m
    → tally o (insert_entry t v m) + one_if o (lookup t m) ≡ tally o m + one_if o (some v)
tally-start o t v [] a = omega arith
tally-start o t v ((k, w) ∷ m) a = ground (arith, tally-insert o t k v m a, lookup-below t k m a)

IsAscending-insert :
    (t : ℕ) (v : SendOutcome) (m : List (ℕ × SendOutcome))
    → IsAscending m
    → IsAscending (insert_entry t v m)
IsAscending-insert t v [] a = tt
IsAscending-insert t v ((k, w) ∷ m) a = ground (arith, Above-insert t k v m a)

counter :
    (o next : SendOutcome) (previous : Option SendOutcome) (s : SendStats) (b x y : ℕ)
    → transition_allowed previous next ≡ true
    → sends o s ≡ b + x
    → y + one_if o previous ≡ x + one_if o (some next)
    → b + x < u64_max
    → sends o (increment next (decrement_previous previous s)) ≡ b + y
unfolding transition_allowed increment decrement
counter ok next previous s b x y p e f l = ground arith
counter failed next previous s b x y p e f l = ground arith
counter empty next previous s b x y p e f l = ground arith

-- A report keeps each counter equal to its start plus the number of targets whose outcome it
-- counts, whether the report is new, replaces an outcome or is passed over, as long as the
-- counters have room.
pub record_send_outcome-Tallied :
    (base : SendStats) (t : ℕ) (next : SendOutcome) (m : Monitor)
    → Tallied base m
    → HasRoom base m
    → Tallied base (record_send_outcome t next m)
unfolding record_send_outcome
record_send_outcome-Tallied base t next m h r =
    let previous = lookup t m.send_outcomes in
    elim (Bool-cases (transition_allowed previous next)) [
      | inl p ↦ simp p (record {
        ascending = IsAscending-insert t next m.send_outcomes h.ascending;
        counts = λ o.
            counter o next previous m.send_stats (sends o base) (tally o m.send_outcomes)
              (tally o (insert_entry t next m.send_outcomes)) p (h.counts o)
              (tally-start o t next m.send_outcomes h.ascending)
              (omega (arith, r o, tally-length o m.send_outcomes));
      })
      | inr p ↦ simp p h
    ]
