-- ===== src/Slot/Deliver/Collect.antt =====
-- src/engine.rs: `harvest_broadcasts`.
use qubic_random_client.Base.{ℕ, Bool, ◌&&◌, List, [], ◌∷◌, ◌++◌, Option, none, some, if◌then◌else◌}
use qubic_random_client.Chain.{
  NetworkTask, running, finished_ok, finished_err, PlannedCall, retry, accepted, failed,
}
use qubic_random_client.Monitor.{Monitor, SendOutcome, record_send_outcome}
use qubic_random_client.Monitor.Checks.{mark_financial_failure, queue_tick_check}
use qubic_random_client.Slot.{Focus}
use qubic_random_client.Slot.Deliver.Calls.{is_terminal, is_normal, is_accepted, is_shutdown_drain}

-- The targets that the loop of `harvest_broadcasts` collects, in order.
pub record Harvest : Type 0 where
  pub accepted_normal : List ℕ
  pub failed_terminal : List ℕ

unfoldable pub accept_call : PlannedCall → Harvest → PlannedCall × Harvest
accept_call call h = (
  record call { broadcast = none; state = accepted },
  if is_normal call.kind
      then record h { accepted_normal = h.accepted_normal ++ call.target_tick ∷ [] }
      else h,
)

unfoldable pub refuse_call : Bool → PlannedCall → Harvest → PlannedCall × Harvest
refuse_call shutdown_drain call h =
    if shutdown_drain && is_terminal call.kind
    then (
      record call { broadcast = none; state = failed },
      record h { failed_terminal = h.failed_terminal ++ call.target_tick ∷ [] },
    )
    else (record call { broadcast = none; state = retry }, h)

-- The body of the loop of `harvest_broadcasts`, by the call's task.
unfoldable pub harvest_task :
    Bool → Option (NetworkTask (Unit {0})) → PlannedCall → Harvest → PlannedCall × Harvest
unfolding accept_call refuse_call
harvest_task shutdown_drain none call h = (call, h)
harvest_task shutdown_drain (some running) call h = (call, h)
harvest_task shutdown_drain (some (finished_ok _)) call h =
    if is_accepted call.state then (record call { broadcast = none }, h) else accept_call call h
harvest_task shutdown_drain (some finished_err) call h =
    if is_accepted call.state
    then (record call { broadcast = none }, h)
    else refuse_call shutdown_drain call h

unfoldable pub harvest_list : Bool → List PlannedCall → Harvest → List PlannedCall × Harvest
unfolding harvest_task
harvest_list shutdown_drain [] h = ([], h)
harvest_list shutdown_drain (call ∷ calls) h =
    let (call', h') = harvest_task shutdown_drain call.broadcast call h in
    let (calls', h'') = harvest_list shutdown_drain calls h' in (call' ∷ calls', h'')

unfoldable pub record_accepted : List ℕ → Monitor → Monitor
unfolding record_send_outcome queue_tick_check
record_accepted [] m = m
record_accepted (t ∷ ts) m =
    record_accepted ts (queue_tick_check t (record_send_outcome t SendOutcome.ok m))

unfoldable pub record_failed : List ℕ → Monitor → Monitor
unfolding mark_financial_failure
record_failed [] m = m
record_failed (t ∷ ts) m = record_failed ts (mark_financial_failure t m)

-- `ProviderEngine::harvest_broadcasts`.
unfoldable pub harvest_broadcasts : Focus → Focus
unfolding harvest_list record_accepted record_failed
harvest_broadcasts f = elim f.slot.chain [
  | none ↦ f
  | some chain ↦
      let (calls, h) =
        harvest_list (is_shutdown_drain f.slot.state) chain.calls
          (record { accepted_normal = []; failed_terminal = [] }) in
      record f {
        slot = record (f.slot) { chain = some (record chain { calls = calls }) };
        monitor = record_failed h.failed_terminal (record_accepted h.accepted_normal f.monitor);
      }
]
