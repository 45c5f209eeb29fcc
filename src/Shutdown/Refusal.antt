-- ===== src/Shutdown/Refusal.antt =====
-- shutdown/shutdown.go: what a closed tracker does to operations.
use go_rabbitmq.Base.{ℕ, ◌≤◌, ◌≡◌, refl, Bool, true, false, if_either, if_holds, arith}
use go_rabbitmq.Shutdown.State.{
  ShutdownManager, InFlightTracker, register_component, begin_shutdown, copy_components,
  close_component, begin_draining, finish_components, end_shutdown, start_operation, operation_done,
  close_tracker,
}
use go_rabbitmq.Shutdown.Run.{
  Step, registers, shuts_down, copies, closes, drains, drained, drain_times_out, completes,
  times_out, operation_starts, operation_ends, Reach, here, then_step,
}

-- The tracker is closed, and there are no more operations than before.
abbrev pub IsDraining : ℕ → InFlightTracker → Type 0
IsDraining n t = (t.closed ≡ true) × (t.count ≤ n)

start_operation-IsDraining :
    (n : ℕ) (t : InFlightTracker) → IsDraining n t → IsDraining n (start_operation t).1
unfolding start_operation
start_operation-IsDraining n t (e, h) =
    if_holds (λ (p : Bool × InFlightTracker). IsDraining n p.1) t.closed _ _ e (e, h)

Step-IsDraining :
    (n : ℕ) {s t : ShutdownManager} → Step s t → IsDraining n s.in_flight → IsDraining n t.in_flight
unfolding register_component begin_shutdown copy_components close_component begin_draining
    finish_components end_shutdown operation_done close_tracker
Step-IsDraining n {s = s} (registers c) h = h
Step-IsDraining n {s = s} shuts_down h =
    if_either (λ (t : ShutdownManager). IsDraining n t.in_flight) s.once _ _ h h
Step-IsDraining n {s = s} (copies e) h = h
Step-IsDraining n {s = s} (closes i c e g) h = h
Step-IsDraining n {s = s} (drains e k) h = (refl, h.1)
Step-IsDraining n {s = s} (drained e k) h = h
Step-IsDraining n {s = s} (drain_times_out e) h = h
Step-IsDraining n {s = s} (completes e f) h = h
Step-IsDraining n {s = s} (times_out e) h = h
Step-IsDraining n {s = s} operation_starts h = start_operation-IsDraining n s.in_flight h
Step-IsDraining n {s = s} (operation_ends p) h = (h.0, omega (arith, h.1))

Reach-IsDraining :
    (n : ℕ) {s t : ShutdownManager}
    → Reach s t
    → IsDraining n s.in_flight
    → IsDraining n t.in_flight
Reach-IsDraining n here h = h
Reach-IsDraining n (then_step r p) h = Step-IsDraining n p (Reach-IsDraining n r h)

-- From a state in which the tracker is closed, whatever happens: it stays closed, every attempt to start
-- an operation is refused, and the number of operations in flight never grows.
pub drained_for_good :
    (s t : ShutdownManager)
    → Reach s t
    → s.in_flight.closed ≡ true
    → (t.in_flight.closed ≡ true)
      × ((start_operation t.in_flight).0 ≡ false)
      × (t.in_flight.count ≤ s.in_flight.count)
unfolding start_operation
drained_for_good s t r e =
    let (f, h) = Reach-IsDraining s.in_flight.count r (e, omega arith) in
    (f, if_holds (λ (p : Bool × InFlightTracker). p.0 ≡ false) t.in_flight.closed _ _ f refl, h)
