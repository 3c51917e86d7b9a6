-- ===== src/Suspicion.antt =====
-- src/engine.rs, `StatusEvidence` and `StatusSuspicion`: how many agreeing observations speak
-- against a chain.
pub mod Confirmed
use qubic_random_client.Base.{
  ℕ, ◌+◌, Bool, true, false, List, [], ◌∷◌, ◌==◌, leb, min, not, if◌then◌else◌, Option, none, some,
}

pub data StatusEvidence : Type 0 where
  absent : StatusEvidence
  foreign : ℕ → StatusEvidence
  lag : ℕ → StatusEvidence

abbrev pub status_confirmations_required : ℕ
status_confirmations_required = 3

-- `StatusEvidence::agrees_with`.
unfoldable pub agrees_with : StatusEvidence → StatusEvidence → Bool
agrees_with absent absent = true
agrees_with (foreign previous) (foreign next) = leb previous next
agrees_with (lag previous) (lag next) = next == previous
agrees_with _ _ = false

pub record StatusSuspicion : Type 0 where
  pub evidence : StatusEvidence
  pub confirmations : ℕ
  pub first_requested_tick : ℕ
  pub last_requested_tick : ℕ

-- `StatusSuspicion::new`.
unfoldable pub new : StatusEvidence → ℕ → StatusSuspicion
new evidence requested_tick = record {
  evidence = evidence;
  confirmations = 1;
  first_requested_tick = requested_tick;
  last_requested_tick = requested_tick;
}

-- `StatusSuspicion::observe`; `saturating_add` is on `u8`.
unfoldable pub observe : StatusSuspicion → StatusEvidence → ℕ → StatusSuspicion
unfolding agrees_with new
observe s evidence requested_tick =
    if leb requested_tick s.last_requested_tick
    then s
    else if not (agrees_with s.evidence evidence)
    then new evidence requested_tick
    else record {
      evidence = evidence;
      confirmations = min (min (s.confirmations + 1) 255) status_confirmations_required;
      first_requested_tick = s.first_requested_tick;
      last_requested_tick = requested_tick;
    }

-- `StatusSuspicion::is_confirmed`.
unfoldable pub is_confirmed : StatusSuspicion → Bool
is_confirmed s = leb status_confirmations_required s.confirmations
