-- ===== src/Slot/Deliver/Rounds.antt =====
-- src/engine.rs: the calls of a chain over any sequence of rounds, and what is sent for them.
pub mod Additional
use mathlib.Core.List.{Memᴰ}
use mathlib.Core.Path.{subst}
use qubic_random_client.Base.{
  ℕ, zero, suc, ◌+◌, ◌≤◌, ◌≡◌, refl, Bool, List, [], ◌∷◌, ◌++◌, Option, none, some, arith, All,
  All-append, All-map, inl, inr, Bool-cases, if◌then◌else◌, ◌==◌,
}
use qubic_random_client.Entropy.{External}
use qubic_random_client.Chain.{
  NetworkTask, running, finished_ok, finished_err, PlannedCall, accepted,
}
use qubic_random_client.Slot.{Broadcast}
use qubic_random_client.Slot.Shape.{SignedCall, signed_call, signed_calls}
use qubic_random_client.Slot.Deliver.{
  Expiry, Round, Sweep, Harvest, expire_call, expire_list, dispatch_call, dispatch_list,
  harvest_task, harvest_list, no_expiry, spawned, accept_call, refuse_call, send_call, is_redundant,
}
use qubic_random_client.Slot.Deliver.Due.{is_due, dispatch_call-outbox}
use qubic_random_client.Slot.Deliver.Signed.{
  expire_list-signed, dispatch_list-signed, harvest_list-signed,
}

-- What can happen to the calls of a chain: an expiry, a round, a harvest, and the end of the task of
-- the call at an index.
pub data Delivery : Type 0 where
  expires : ℕ → ℕ → Delivery
  sends : Round → Delivery
  harvests : Bool → Delivery
  ends : ℕ → NetworkTask (Unit {0}) → Delivery

abbrev pub no_harvest : Harvest
no_harvest = record { accepted_normal = []; failed_terminal = [] }

abbrev pub no_sweep : Sweep
no_sweep = record { digests = []; outbox = []; failed_terminal_target = none }

abbrev pub end_task : ℕ → NetworkTask (Unit {0}) → List PlannedCall → List PlannedCall
end_task i result [] = []
end_task zero result (c ∷ cs) = record c { broadcast = some result } ∷ cs
end_task (suc i) result (c ∷ cs) = c ∷ end_task i result cs

unfoldable pub calls_after : External → Delivery → List PlannedCall → List PlannedCall
unfolding expire_list dispatch_list harvest_list
calls_after x (expires first tick) cs = (expire_list first tick cs no_expiry).0
calls_after x (sends r) cs = (dispatch_list x r cs no_sweep).0
calls_after x (harvests shutdown_drain) cs = (harvest_list shutdown_drain cs no_harvest).0
calls_after x (ends i result) cs = end_task i result cs

unfoldable pub sent_by : External → Delivery → List PlannedCall → List Broadcast
unfolding dispatch_list
sent_by x (sends r) cs = (dispatch_list x r cs no_sweep).1.outbox
sent_by x d cs = []

-- All that is sent.
unfoldable pub all_sent : External → List Delivery → List PlannedCall → List Broadcast
unfolding calls_after sent_by
all_sent x [] cs = []
all_sent x (d ∷ ds) cs = sent_by x d cs ++ all_sent x ds (calls_after x d cs)

-- What a broadcast carries of its call.
abbrev pub carried : Broadcast → SignedCall
carried b = record { target_tick = b.target_tick; tx_bytes = b.tx_bytes; kind = b.kind }

end_task-signed :
    (i : ℕ) (result : NetworkTask (Unit {0})) (cs : List PlannedCall)
    → signed_calls (end_task i result cs) ≡ signed_calls cs
end_task-signed i result [] = refl
end_task-signed zero result (c ∷ cs) = refl
end_task-signed (suc i) result (c ∷ cs) = cc (end_task-signed i result cs)

calls_after-signed :
    (x : External) (d : Delivery) (cs : List PlannedCall)
    → signed_calls (calls_after x d cs) ≡ signed_calls cs
unfolding calls_after
calls_after-signed x (expires first tick) cs = expire_list-signed first tick cs no_expiry
calls_after-signed x (sends r) cs = dispatch_list-signed x r cs no_sweep
calls_after-signed x (harvests b) cs = harvest_list-signed b cs no_harvest
calls_after-signed x (ends i result) cs = end_task-signed i result cs

abbrev Carries : List SignedCall → Broadcast → Type 0
Carries cs b = Memᴰ (carried b) cs

Carries-tail :
    (c : SignedCall) (cs : List SignedCall) (bs : List Broadcast)
    → All (Carries cs) bs
    → All (Carries (c ∷ cs)) bs
Carries-tail c cs bs h = All-map (Carries cs) (Carries (c ∷ cs)) (λ b m. Memᴰ.tail m) bs h

dispatch_call-Carries :
    (x : External) (r : Round) (c : PlannedCall) (cs : List SignedCall) (w : Sweep)
    → Memᴰ (signed_call c) cs
    → All (Carries cs) w.outbox
    → All (Carries cs) (dispatch_call x r c w).1.outbox
unfolding spawned
dispatch_call-Carries x r c cs w m h =
    rw (dispatch_call-outbox x r c w)
      (elim (Bool-cases (is_due r c)) [ inl d ↦ rw d (m, h) | inr d ↦ rw d h ])

dispatch_list-Carries :
    (x : External) (r : Round) (cs : List PlannedCall) (all : List SignedCall) (w : Sweep)
    → ((s : SignedCall) → Memᴰ s (signed_calls cs) → Memᴰ s all)
    → All (Carries all) w.outbox
    → All (Carries all) (dispatch_list x r cs w).1.outbox
unfolding dispatch_list
dispatch_list-Carries x r [] all w within h = h
dispatch_list-Carries x r (c ∷ cs) all w within h =
    dispatch_list-Carries x r cs all (dispatch_call x r c w).1 (λ s m. within s (Memᴰ.tail m))
      (dispatch_call-Carries x r c all w (within (signed_call c) (Memᴰ.head refl)) h)

sent_by-Carries :
    (x : External) (d : Delivery) (cs : List PlannedCall)
    → All (Carries (signed_calls cs)) (sent_by x d cs)
unfolding sent_by
sent_by-Carries x (expires first tick) cs = tt
sent_by-Carries x (sends r) cs =
    dispatch_list-Carries x r cs (signed_calls cs) no_sweep (λ s m. m) tt
sent_by-Carries x (harvests b) cs = tt
sent_by-Carries x (ends i result) cs = tt

-- In any sequence of expiries, rounds, harvests and ends of tasks, each broadcast that is
-- started for the calls of a chain, retries and additional sends included, carries the target,
-- the bytes and the kind of one of the calls as they stood at the start.
pub all_sent-carried :
    (x : External) (ds : List Delivery) (cs : List PlannedCall)
    → All (λ b. Memᴰ (carried b) (signed_calls cs)) (all_sent x ds cs)
unfolding all_sent
all_sent-carried x [] cs = tt
all_sent-carried x (d ∷ ds) cs =
    All-append (Carries (signed_calls cs)) (sent_by x d cs) _ (sent_by-Carries x d cs) (
      subst (λ s. All (Carries s) (all_sent x ds (calls_after x d cs))) (calls_after-signed x d cs)
        (all_sent-carried x ds (calls_after x d cs)))
