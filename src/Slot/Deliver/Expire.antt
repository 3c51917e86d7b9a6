-- ===== src/Slot/Deliver/Expire.antt =====
-- src/engine.rs: `expire_calls` and `complete_drain`.
use qubic_random_client.Base.{
  ℕ, Bool, true, false, List, [], ◌∷◌, Option, none, some, ltb, if◌then◌else◌, saturating_add,
}
use qubic_random_client.Chain.{
  PlannedCall, CallKind, BroadcastState, first_commit, reveal_and_commit, terminal_reveal, failed,
}
use qubic_random_client.Slot.{
  SlotState, Focus, DrainOutcome, starting, active, draining, drained, lose_chain,
}
use qubic_random_client.Slot.Deliver.Calls.{is_settled, is_attempted, set_calls, mark_failure}

-- The local variables of `expire_calls`.
pub record Expiry : Type 0 where
  pub expired : Bool
  pub first_expired_normal : Option ℕ
  pub attempted_terminal : Option ℕ

abbrev pub get_or_insert : Option ℕ → ℕ → Option ℕ
get_or_insert none target = some target
get_or_insert (some first) target = some first

unfoldable pub note_expired : CallKind → ℕ → BroadcastState → Expiry → Expiry
note_expired first_commit target state e = record e { expired = true }
note_expired reveal_and_commit target state e = record e {
  expired = true;
  first_expired_normal = get_or_insert e.first_expired_normal target;
}
note_expired terminal_reveal target state e = record e {
  expired = true;
  attempted_terminal = if is_attempted state then some target else e.attempted_terminal;
}

-- The body of the loop of `expire_calls`.
unfoldable pub expire_call : ℕ → ℕ → PlannedCall → Expiry → PlannedCall × Expiry
unfolding note_expired
expire_call first_target current_tick call e =
    let aborted = record call { broadcast = none } in
    let lost = record call { broadcast = none; state = failed } in
    if ltb current_tick call.target_tick
    then (call, e)
    else if is_settled call.state
    then (aborted, e)
    else if ltb call.target_tick first_target
    then (lost, e)
    else (lost, note_expired call.kind call.target_tick call.state e)

unfoldable pub expire_list : ℕ → ℕ → List PlannedCall → Expiry → List PlannedCall × Expiry
unfolding expire_call
expire_list first_target current_tick [] e = ([], e)
expire_list first_target current_tick (call ∷ calls) e =
    let (call', e') = expire_call first_target current_tick call e in
    let (calls', e'') = expire_list first_target current_tick calls e' in (call' ∷ calls', e'')

abbrev pub or_else : Option ℕ → Option ℕ → Option ℕ
or_else none b = b
or_else (some a) b = some a

-- `financial_failure` in `expire_calls`.
abbrev pub expiry_failure : SlotState → Expiry → Option ℕ
expiry_failure (starting _) e = e.first_expired_normal
expiry_failure active e = e.first_expired_normal
expiry_failure (draining _ _) e = or_else e.first_expired_normal e.attempted_terminal
expiry_failure _ e = none

-- `ProviderEngine::complete_drain`.
unfoldable pub complete_drain : DrainOutcome → Focus → Focus
complete_drain outcome f = record f {
  slot = record (f.slot) { chain = none; state = drained outcome };
}

-- The last `match` of `expire_calls`.
unfoldable pub after_expiry : SlotState → ℕ → Focus → Focus
unfolding lose_chain complete_drain
after_expiry (starting _) current_tick f = lose_chain (saturating_add current_tick 1) false f
after_expiry active current_tick f = lose_chain (saturating_add current_tick 1) false f
after_expiry (draining _ _) current_tick f = complete_drain DrainOutcome.failed f
after_expiry _ current_tick f = f

unfoldable pub settle_expiry : ℕ → Expiry → Focus → Focus
unfolding after_expiry
settle_expiry current_tick e f =
    if e.expired
    then after_expiry f.slot.state current_tick (mark_failure (expiry_failure f.slot.state e) f)
    else f

abbrev pub no_expiry : Expiry
no_expiry = record { expired = false; first_expired_normal = none; attempted_terminal = none }

-- `ProviderEngine::expire_calls`.
unfoldable pub expire_calls : ℕ → Focus → Focus
unfolding expire_list settle_expiry
expire_calls current_tick f = elim f.slot.chain [
  | none ↦ f
  | some chain ↦
      let (calls, e) = expire_list chain.first_target current_tick chain.calls no_expiry in
      settle_expiry current_tick e (set_calls calls chain f)
]
