-- ===== src/Shutdown/Run.antt =====
-- shutdown/shutdown.go: the steps of a shutdown, of its callers and of operations, in any order.
use go_rabbitmq.Base.{ℕ, ◌≡◌, ◌<◌, true, false, some, [], get_elem?}
use go_rabbitmq.Shutdown.State.{
  ShutdownManager, starting, closing, draining, finished, register_component, begin_shutdown,
  copy_components, close_component, begin_draining, finish_components, end_shutdown,
  start_operation, operation_done,
}

-- A wait for the operations ends when none is in flight or when its timeout passes, which may be at any
-- time; and so does the wait of Shutdown.
pub data Step : ShutdownManager → ShutdownManager → Type 0 where
  registers : {s : ShutdownManager} (c : ℕ) → Step s (register_component c s)
  shuts_down : {s : ShutdownManager} → Step s (begin_shutdown s)
  copies : {s : ShutdownManager} → s.phase ≡ starting → Step s (copy_components s)
  closes :
      {s : ShutdownManager} (i c : ℕ)
      → s.phase ≡ closing
      → get_elem? s.pending i ≡ some c
      → Step s (close_component i c s)
  drains : {s : ShutdownManager} → s.phase ≡ closing → s.pending ≡ [] → Step s (begin_draining s)
  drained :
      {s : ShutdownManager}
      → s.phase ≡ draining
      → s.in_flight.count ≡ 0
      → Step s (finish_components s)
  drain_times_out : {s : ShutdownManager} → s.phase ≡ draining → Step s (finish_components s)
  completes :
      {s : ShutdownManager}
      → s.selecting ≡ true
      → s.phase ≡ finished
      → Step s (end_shutdown false s)
  times_out : {s : ShutdownManager} → s.selecting ≡ true → Step s (end_shutdown true s)
  operation_starts :
      {s : ShutdownManager} → Step s (record s { in_flight = (start_operation s.in_flight).1 })
  operation_ends :
      {s : ShutdownManager}
      → 0 < s.in_flight.count
      → Step s (record s { in_flight = operation_done s.in_flight })

pub data Reach : ShutdownManager → ShutdownManager → Type 0 where
  here : {s : ShutdownManager} → Reach s s
  then_step : {s t u : ShutdownManager} → Reach s t → Step t u → Reach s u
