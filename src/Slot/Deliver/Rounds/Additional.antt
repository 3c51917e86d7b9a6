-- ===== src/Slot/Deliver/Rounds/Additional.antt =====
-- src/engine.rs: how often an accepted call is sent over any sequence of rounds.
use qubic_random_client.Base.{
  ℕ, zero, suc, ◌+◌, ◌≤◌, ◌≡◌, Bool, List, [], ◌∷◌, ◌++◌, Option, none, some, arith, All,
  if◌then◌else◌, ◌==◌,
}
use qubic_random_client.Entropy.{External}
use qubic_random_client.Chain.{
  NetworkTask, running, finished_ok, finished_err, PlannedCall, accepted,
}
use qubic_random_client.Slot.{Broadcast}
use qubic_random_client.Slot.Deliver.{
  Expiry, Round, Sweep, Harvest, expire_call, expire_list, dispatch_call, dispatch_list,
  harvest_task, harvest_list, no_expiry, spawned, accept_call, refuse_call, send_call, is_redundant,
}
use qubic_random_client.Slot.Deliver.Rounds.{
  Delivery, expires, sends, harvests, ends, calls_after, sent_by, all_sent, no_harvest, no_sweep,
  end_task,
}

module _ (t : ℕ) where
  -- How many broadcasts are for the target, and how many calls for it have their additional send left.
  abbrev pub sent_for : List Broadcast → ℕ
  sent_for [] = 0
  sent_for (b ∷ bs) = (if b.target_tick == t then 1 else 0) + sent_for bs

  abbrev pub unspent : List PlannedCall → ℕ
  unspent [] = 0
  unspent (c ∷ cs) =
      (if c.target_tick == t then if c.redundant_attempted then 0 else 1 else 0) + unspent cs

  -- The backend has accepted the calls for the target.
  abbrev pub AllAccepted : List PlannedCall → Type 0
  AllAccepted cs = All (λ c. c.target_tick ≡ t → c.state ≡ accepted) cs

  -- One step keeps them accepted, and pays for what it sends.
  record Pays (cs cs' : List PlannedCall) (sent : ℕ) : Type 0 where
    kept : AllAccepted cs'
    paid : sent + unspent cs' ≤ unspent cs

  sent_for-append : (xs ys : List Broadcast) → sent_for (xs ++ ys) ≡ sent_for xs + sent_for ys
  sent_for-append [] ys = omega arith
  sent_for-append (b ∷ bs) ys = omega (arith, sent_for-append bs ys)

  expire_list-Pays :
      (first tick : ℕ) (cs : List PlannedCall) (e : Expiry)
      → AllAccepted cs
      → Pays cs (expire_list first tick cs e).0 0
  unfolding expire_list expire_call
  expire_list-Pays first tick [] e h = record { kept = tt; paid = omega arith }
  expire_list-Pays first tick (c ∷ cs) e h =
      let rest = expire_list-Pays first tick cs (expire_call first tick c e).1 h.1 in
      let k = h.0 in
      let paid = rest.paid in
      record { kept = ((λ m. ground arith), rest.kept); paid = ground arith }

  dispatch_call-Pays :
      (x : External) (r : Round) (c : PlannedCall) (w : Sweep)
      → (c.target_tick ≡ t → c.state ≡ accepted)
      → ((dispatch_call x r c w).0.target_tick ≡ t → (dispatch_call x r c w).0.state ≡ accepted)
        × (sent_for (dispatch_call x r c w).1.outbox + unspent ((dispatch_call x r c w).0 ∷ [])
            ≤ sent_for w.outbox + unspent (c ∷ []))
  unfolding dispatch_call send_call is_redundant spawned
  dispatch_call-Pays x r c w h = ((λ m. ground arith), ground arith)

  dispatch_list-Pays :
      (x : External) (r : Round) (cs : List PlannedCall) (w : Sweep)
      → AllAccepted cs
      → AllAccepted (dispatch_list x r cs w).0
        × (sent_for (dispatch_list x r cs w).1.outbox + unspent (dispatch_list x r cs w).0
            ≤ sent_for w.outbox + unspent cs)
  unfolding dispatch_list
  dispatch_list-Pays x r [] w h = (tt, omega arith)
  dispatch_list-Pays x r (c ∷ cs) w h =
      let first = dispatch_call-Pays x r c w h.0 in
      let rest = dispatch_list-Pays x r cs (dispatch_call x r c w).1 h.1 in
      ((first.0, rest.0), omega (arith, first.1, rest.1))

  harvest_task-Pays :
      (b : Bool) (task : Option (NetworkTask (Unit {0}))) (c : PlannedCall) (g : Harvest)
      → (c.target_tick ≡ t → c.state ≡ accepted)
      → ((harvest_task b task c g).0.target_tick ≡ t → (harvest_task b task c g).0.state ≡ accepted)
        × (unspent ((harvest_task b task c g).0 ∷ []) ≤ unspent (c ∷ []))
  unfolding harvest_task accept_call refuse_call
  harvest_task-Pays b none c g k = (k, omega arith)
  harvest_task-Pays b (some running) c g k = (k, omega arith)
  harvest_task-Pays b (some (finished_ok _)) c g k = ((λ m. ground arith), ground arith)
  harvest_task-Pays b (some finished_err) c g k = ((λ m. ground arith), ground arith)

  harvest_list-Pays :
      (b : Bool) (cs : List PlannedCall) (g : Harvest)
      → AllAccepted cs
      → Pays cs (harvest_list b cs g).0 0
  unfolding harvest_list
  harvest_list-Pays b [] g h = record { kept = tt; paid = omega arith }
  harvest_list-Pays b (c ∷ cs) g h =
      let first = harvest_task-Pays b c.broadcast c g h.0 in
      let rest = harvest_list-Pays b cs (harvest_task b c.broadcast c g).1 h.1 in
      let paid = rest.paid in record { kept = (first.0, rest.kept); paid = omega (arith, first.1) }

  end_task-Pays :
      (i : ℕ) (result : NetworkTask (Unit {0})) (cs : List PlannedCall)
      → AllAccepted cs
      → Pays cs (end_task i result cs) 0
  end_task-Pays i result [] h = record { kept = tt; paid = omega arith }
  end_task-Pays zero result (c ∷ cs) h = record { kept = h; paid = omega arith }
  end_task-Pays (suc i) result (c ∷ cs) h =
      let rest = end_task-Pays i result cs h.1 in
      let paid = rest.paid in record { kept = (h.0, rest.kept); paid = omega arith }

  step-Pays :
      (x : External) (d : Delivery) (cs : List PlannedCall)
      → AllAccepted cs
      → Pays cs (calls_after x d cs) (sent_for (sent_by x d cs))
  unfolding calls_after sent_by
  step-Pays x (expires first tick) cs h = expire_list-Pays first tick cs no_expiry h
  step-Pays x (sends r) cs h =
      let round = dispatch_list-Pays x r cs no_sweep h in
      record { kept = round.0; paid = omega (arith, round.1) }
  step-Pays x (harvests b) cs h = harvest_list-Pays b cs no_harvest h
  step-Pays x (ends i result) cs h = end_task-Pays i result cs h

  -- In any sequence of expiries, rounds, harvests and ends of tasks, if the backend has accepted
  -- the calls for a target, no more broadcasts are started for the target than there are calls
  -- for it that were not sent the additional time: one at most for each, and none once it was
  -- sent.
  pub additional_once :
      (x : External) (ds : List Delivery) (cs : List PlannedCall)
      → AllAccepted cs
      → sent_for (all_sent x ds cs) ≤ unspent cs
  unfolding all_sent
  additional_once x [] cs h = omega arith
  additional_once x (d ∷ ds) cs h =
      let step = step-Pays x d cs h in
      let paid = step.paid in
      omega (
        arith,
        sent_for-append (sent_by x d cs) (all_sent x ds (calls_after x d cs)),
        additional_once x ds (calls_after x d cs) step.kept,
      )
