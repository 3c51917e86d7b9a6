-- ===== src/Slot/Deliver/Signed.antt =====
-- src/engine.rs: delivery sends, retries and expires calls, and never signs one anew.
use qubic_random_client.Base.{ℕ, ◌≡◌, refl, List, [], ◌∷◌, Bool, arith, Option}
use qubic_random_client.Entropy.{External}
use qubic_random_client.Chain.{PlannedCall, NetworkTask}
use qubic_random_client.Slot.Shape.{signed_call, signed_calls}
use qubic_random_client.Slot.Deliver.{
  Expiry, Round, Sweep, Harvest, expire_call, expire_list, dispatch_call, dispatch_list,
  harvest_task, harvest_list,
}

expire_call-signed :
    (first tick : ℕ) (c : PlannedCall) (e : Expiry)
    → signed_call (expire_call first tick c e).0 ≡ signed_call c
unfolding expire_call
expire_call-signed first tick c e = ground arith

pub expire_list-signed :
    (first tick : ℕ) (cs : List PlannedCall) (e : Expiry)
    → signed_calls (expire_list first tick cs e).0 ≡ signed_calls cs
unfolding expire_list
expire_list-signed first tick [] e = refl
expire_list-signed first tick (c ∷ cs) e = cc (
  expire_call-signed first tick c e,
  expire_list-signed first tick cs (expire_call first tick c e).1,
)

dispatch_call-signed :
    (x : External) (r : Round) (c : PlannedCall) (w : Sweep)
    → signed_call (dispatch_call x r c w).0 ≡ signed_call c
unfolding dispatch_call
dispatch_call-signed x r c w = ground arith

pub dispatch_list-signed :
    (x : External) (r : Round) (cs : List PlannedCall) (w : Sweep)
    → signed_calls (dispatch_list x r cs w).0 ≡ signed_calls cs
unfolding dispatch_list
dispatch_list-signed x r [] w = refl
dispatch_list-signed x r (c ∷ cs) w =
    cc (dispatch_call-signed x r c w, dispatch_list-signed x r cs (dispatch_call x r c w).1)

harvest_task-signed :
    (b : Bool) (t : Option (NetworkTask (Unit {0}))) (c : PlannedCall) (h : Harvest)
    → signed_call (harvest_task b t c h).0 ≡ signed_call c
unfolding harvest_task
harvest_task-signed b t c h = ground arith

pub harvest_list-signed :
    (b : Bool) (cs : List PlannedCall) (h : Harvest)
    → signed_calls (harvest_list b cs h).0 ≡ signed_calls cs
unfolding harvest_list
harvest_list-signed b [] h = refl
harvest_list-signed b (c ∷ cs) h = cc (
  harvest_task-signed b c.broadcast c h,
  harvest_list-signed b cs (harvest_task b c.broadcast c h).1,
)
