-- ===== src/Suspicion/Confirmed.antt =====
-- src/engine.rs, `StatusSuspicion`: what a confirmed suspicion rests on.
use qubic_random_client.Base.{
  ℕ, suc, ◌≤◌, ◌<◌, ◌≡◌, true, List, [], ◌∷◌, arith, min, inl, inr, leb, Bool-cases,
}
use qubic_random_client.Suspicion.{
  StatusEvidence, StatusSuspicion, absent, foreign, lag, agrees_with, new, observe, is_confirmed,
}

-- An observation that `observe` is given.
pub record Seen : Type 0 where
  pub evidence : StatusEvidence
  pub requested_tick : ℕ

-- The suspicion after observations, in order, from the first one on.
unfoldable pub suspect : StatusSuspicion → List Seen → StatusSuspicion
unfolding observe
suspect s [] = s
suspect s (o ∷ os) = suspect (observe s o.evidence o.requested_tick) os

-- When one observation bears out the one before it.
abbrev pub BearsOut : StatusEvidence → StatusEvidence → Type 0
BearsOut absent absent = Unit
BearsOut (foreign previous) (foreign next) = previous ≤ next
BearsOut (lag previous) (lag next) = next ≡ previous
BearsOut _ _ = ⊥

-- Of a sequence of observations, the newest first, those of its end that bear each other out, with
-- the last of them and their number. Between them stand only observations that came late.
pub data Run : List Seen → Seen → ℕ → Type 0 where
  begins : (o : Seen) (seen : List Seen) → Run (o ∷ seen) o 1
  late :
      {seen : List Seen} {last : Seen} {n : ℕ} (o : Seen)
      → Run seen last n
      → o.requested_tick ≤ last.requested_tick
      → Run (o ∷ seen) last n
  more :
      {seen : List Seen} {last : Seen} {n : ℕ} (o : Seen)
      → Run seen last n
      → last.requested_tick < o.requested_tick
      → BearsOut last.evidence o.evidence
      → Run (o ∷ seen) o (suc n)

abbrev last_of : StatusSuspicion → Seen
last_of s = record { evidence = s.evidence; requested_tick = s.last_requested_tick }

-- A suspicion's counter is backed by as many observations.
data Backed (seen : List Seen) (s : StatusSuspicion) : Type 0 where
  backed : (n : ℕ) → Run seen (last_of s) n → s.confirmations ≡ min n 3 → Backed seen s

agrees-BearsOut : (e e' : StatusEvidence) → agrees_with e e' ≡ true → BearsOut e e'
unfolding agrees_with
agrees-BearsOut absent absent h = tt
agrees-BearsOut (foreign p) (foreign n) h = ground arith
agrees-BearsOut (lag p) (lag n) h = ground arith
agrees-BearsOut absent (foreign _) h = cc
agrees-BearsOut absent (lag _) h = cc
agrees-BearsOut (foreign _) absent h = cc
agrees-BearsOut (foreign _) (lag _) h = cc
agrees-BearsOut (lag _) absent h = cc
agrees-BearsOut (lag _) (foreign _) h = cc

new-Backed : (o : Seen) (seen : List Seen) → Backed (o ∷ seen) (new o.evidence o.requested_tick)
unfolding new
new-Backed o seen = backed 1 (begins o seen) (omega arith)

observe-Backed :
    (s : StatusSuspicion) (o : Seen) (seen : List Seen)
    → Backed seen s
    → Backed (o ∷ seen) (observe s o.evidence o.requested_tick)
unfolding observe
observe-Backed s o seen (backed n r c) =
    elim (Bool-cases (leb o.requested_tick s.last_requested_tick)) [
      | inl l ↦ simp l (backed n (late o r (ground arith)) c)
      | inr l ↦ elim (Bool-cases (agrees_with s.evidence o.evidence)) [
        | inl g ↦
            simp (l, g)
              (backed (suc n) (more o r (ground arith) (agrees-BearsOut s.evidence o.evidence g))
                (ground arith))
        | inr g ↦ simp (l, g) (new-Backed o seen)
      ]
    ]

-- Observations on top of earlier ones, the newest first.
abbrev pub newest_first : List Seen → List Seen → List Seen
newest_first seen [] = seen
newest_first seen (o ∷ os) = newest_first (o ∷ seen) os

suspect-Backed :
    (s : StatusSuspicion) (seen os : List Seen)
    → Backed seen s
    → Backed (newest_first seen os) (suspect s os)
unfolding suspect
suspect-Backed s seen [] b = b
suspect-Backed s seen (o ∷ os) b =
    suspect-Backed (observe s o.evidence o.requested_tick) (o ∷ seen) os (observe-Backed s o seen b)

-- At least so many of the observations back the suspicion.
pub record RestsOn (least : ℕ) (seen : List Seen) (s : StatusSuspicion) : Type 0 where
  pub number : ℕ
  pub enough : least ≤ number
  pub run :
      Run seen (record { evidence = s.evidence; requested_tick = s.last_requested_tick }) number

Backed-RestsOn :
    (seen : List Seen) (s : StatusSuspicion)
    → is_confirmed s ≡ true
    → Backed seen s
    → RestsOn 3 seen s
unfolding is_confirmed
Backed-RestsOn seen s h (backed n r c) = record { number = n; enough = ground arith; run = r }

-- A suspicion that any sequence of observations has led to, if it is confirmed, rests on at
-- least three of them that are its latest: each agrees with the one before it and was requested
-- at a later tick, the last has the suspicion's evidence and tick, and every other observation
-- since the first of them was requested no later than one of them that came before it.
pub suspect-confirmed :
    (first : Seen) (os : List Seen)
    → is_confirmed (suspect (new first.evidence first.requested_tick) os) ≡ true
    → RestsOn 3
        (newest_first (first ∷ []) os)
        (suspect (new first.evidence first.requested_tick) os)
suspect-confirmed first os h =
    Backed-RestsOn (newest_first (first ∷ []) os)
      (suspect (new first.evidence first.requested_tick) os) h
      (suspect-Backed (new first.evidence first.requested_tick) (first ∷ []) os
        (new-Backed first []))
