-- ===== src/Monitor/Severity.antt =====
-- src/engine.rs, `record_send_outcome`: the outcome that a target settles on, whatever the order of
-- the reports.
use qubic_random_client.Base.{
  ℕ, ◌≡◌, true, false, List, [], ◌∷◌, Option, none, some, arith, inl, inr, Bool-cases, lookup,
  insert_entry, ◌==◌, ltb, if◌then◌else◌, refl, max, ap, ==_iff,
}
use qubic_random_client.Monitor.{
  Monitor, SendOutcome, ok, failed, empty, transition_allowed, record_send_outcome,
}

-- A report of an outcome for a target tick.
pub record Report : Type 0 where
  pub tick : ℕ
  pub outcome : SendOutcome

-- The reports, first to last.
pub record_all : List Report → Monitor → Monitor
unfolding record_send_outcome
record_all [] m = m
record_all (r ∷ rs) m = record_all rs (record_send_outcome r.tick r.outcome m)

-- How bad what is known of a target is; nothing known is 0.
abbrev pub severity : Option SendOutcome → ℕ
severity none = 0
severity (some ok) = 1
severity (some failed) = 2
severity (some empty) = 3

-- The worst that is reported for a target.
abbrev pub worst : ℕ → List Report → ℕ
worst t [] = 0
worst t (r ∷ rs) = max (if r.tick == t then severity (some r.outcome) else 0) (worst t rs)

lookup-insert_entry :
    {V : Type 0} (t k : ℕ) (v : V) (m : List (ℕ × V))
    → lookup t (insert_entry k v m) ≡ (if k == t then some v else lookup t m)
lookup-insert_entry t k v [] = refl
lookup-insert_entry t k v ((j, w) ∷ m) = ground (arith, lookup-insert_entry t k v m)

allowed :
    (p : Option SendOutcome) (n : SendOutcome)
    → transition_allowed p n ≡ ltb (severity p) (severity (some n))
unfolding transition_allowed
allowed none n = ground arith
allowed (some p) n = ground arith

severity-insert :
    (t k : ℕ) (n : SendOutcome) (m : List (ℕ × SendOutcome))
    → transition_allowed (lookup k m) n ≡ true
    → severity (lookup t (insert_entry k n m))
      ≡ max (severity (lookup t m)) (if k == t then severity (some n) else 0)
severity-insert t k n m h = elim (Bool-cases (k == t)) [
  | inl e ↦
      rw (lookup-insert_entry t k n m)
        (ground (arith, allowed (lookup k m) n, ap (λ x. lookup x m) ((==_iff k t).0 e)))
  | inr e ↦ rw (lookup-insert_entry t k n m) (ground arith)
]

severity-kept :
    (t k : ℕ) (n : SendOutcome) (m : List (ℕ × SendOutcome))
    → transition_allowed (lookup k m) n ≡ false
    → severity (lookup t m) ≡ max (severity (lookup t m)) (if k == t then severity (some n) else 0)
severity-kept t k n m h = elim (Bool-cases (k == t)) [
  | inl e ↦ ground (arith, allowed (lookup k m) n, ap (λ x. lookup x m) ((==_iff k t).0 e))
  | inr e ↦ ground arith
]

severity-report :
    (t k : ℕ) (n : SendOutcome) (m : Monitor)
    → severity (lookup t (record_send_outcome k n m).send_outcomes)
      ≡ max (severity (lookup t m.send_outcomes)) (if k == t then severity (some n) else 0)
unfolding record_send_outcome
severity-report t k n m = elim (Bool-cases (transition_allowed (lookup k m.send_outcomes) n)) [
  | inl p ↦ simp p (severity-insert t k n m.send_outcomes p)
  | inr p ↦ simp p (severity-kept t k n m.send_outcomes p)
]

-- After any reports, what is known of a target is the worse of what was known before and the worst
-- that was reported for it, whatever the order of the reports.
pub record_all-worst :
    (t : ℕ) (rs : List Report) (m : Monitor)
    → severity (lookup t (record_all rs m).send_outcomes)
      ≡ max (severity (lookup t m.send_outcomes)) (worst t rs)
unfolding record_all
record_all-worst t [] m = omega arith
record_all-worst t (r ∷ rs) m = omega (
  arith,
  record_all-worst t rs (record_send_outcome r.tick r.outcome m),
  severity-report t r.tick r.outcome m,
)
