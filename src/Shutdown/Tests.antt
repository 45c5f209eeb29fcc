-- ===== src/Shutdown/Tests.antt =====
-- Runs of a shutdown.
use go_rabbitmq.Base.{ℕ, ◌⊎◌, ◌≡◌, ◌≤◌, refl, true, false, [], ◌∷◌}
use go_rabbitmq.Shutdown.State.{
  ShutdownManager, new_shutdown_manager, new_in_flight_tracker, start_operation, occurrences,
  register_component, begin_shutdown, copy_components, close_component, begin_draining,
  finish_components, end_shutdown, close_tracker, idle,
}
use go_rabbitmq.Shutdown.Run.{
  registers, shuts_down, copies, closes, drains, drained, completes, operation_starts, Reach, here,
  then_step,
}
use go_rabbitmq.Shutdown.Once.{IsComplete, shutdown_once}
use go_rabbitmq.Shutdown.Refusal.{drained_for_good}

-- Two components are registered and closed, the second first, and Shutdown ends.
abbrev two : ShutdownManager
two = register_component 8 (register_component 7 new_shutdown_manager)

abbrev all_closed : ShutdownManager
all_closed = close_component 0 7 (close_component 1 8 (copy_components (begin_shutdown two)))

abbrev finished_run : ShutdownManager
finished_run = end_shutdown false (finish_components (begin_draining all_closed))

two-run : Reach new_shutdown_manager finished_run
unfolding new_shutdown_manager register_component begin_shutdown copy_components close_component
    begin_draining finish_components end_shutdown new_in_flight_tracker close_tracker
two-run =
    then_step
      (then_step
        (then_step
          (then_step
            (then_step
              (then_step
                (then_step (then_step (then_step here (registers 7)) (registers 8)) shuts_down)
                (copies refl))
              (closes 1 8 refl refl))
            (closes 0 7 refl refl))
          (drains refl refl))
        (drained refl refl))
      (completes refl refl)

shutdown_once_example :
    (finished_run.done ≤ 1)
    × ((c : ℕ) → occurrences c finished_run.closed ≤ occurrences c finished_run.components)
    × ((finished_run.done ≡ 0) ⊎ ((finished_run.timed_out ≡ true) ⊎ IsComplete finished_run))
shutdown_once_example = shutdown_once finished_run two-run

ended : (finished_run.done ≡ 1) × (finished_run.closed ≡ 7 ∷ 8 ∷ [])
unfolding new_shutdown_manager register_component begin_shutdown copy_components close_component
    begin_draining finish_components end_shutdown
ended = (refl, refl)

-- One operation is in flight when the tracker is closed.
abbrev busy : ShutdownManager
busy = record {
  components = [];
  once = true;
  phase = go_rabbitmq.Shutdown.State.draining;
  copied = [];
  pending = [];
  closed = [];
  selecting = true;
  timed_out = false;
  done = 0;
  in_flight = record { count = 1; closed = true };
}

abbrev refused : ShutdownManager
refused = record busy { in_flight = (start_operation busy.in_flight).1 }

drained_for_good_example :
    (refused.in_flight.closed ≡ true)
    × ((start_operation refused.in_flight).0 ≡ false)
    × (refused.in_flight.count ≤ 1)
drained_for_good_example = drained_for_good busy refused (then_step here operation_starts) refl
