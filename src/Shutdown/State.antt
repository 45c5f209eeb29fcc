-- ===== src/Shutdown/State.antt =====
-- shutdown/shutdown.go: the manager and the sections of its goroutines.
use go_rabbitmq.Base.{
  ℕ, zero, suc, ◌-◌, Bool, true, false, List, [], ◌∷◌, ◌++◌, ◌==◌, if◌then◌else◌, sum_by,
}

-- `count` is the counter of the wait group.
pub record InFlightTracker : Type 0 where
  pub count : ℕ
  pub closed : Bool

unfoldable pub new_in_flight_tracker : InFlightTracker
new_in_flight_tracker = record { count = 0; closed = false }

-- Whether the operation may start, and the tracker then.
unfoldable pub start_operation : InFlightTracker → Bool × InFlightTracker
start_operation t = if t.closed then (false, t) else (true, record t { count = suc t.count })

unfoldable pub operation_done : InFlightTracker → InFlightTracker
operation_done t = record t { count = t.count - 1 }

-- What `Close` and `CloseWithTimeout` do before they wait.
unfoldable pub close_tracker : InFlightTracker → InFlightTracker
close_tracker t = record t { closed = true }

-- Where the goroutine of a shutdown is: not begun; before it copies the components; while the closing
-- goroutines run; while it waits for operations; returned.
pub data Phase : Type 0 where
  idle starting closing draining finished : Phase

-- A component is known by a number. `once` is the `sync.Once`; `selecting` is the wait of `Shutdown` for
-- its goroutine or the timeout. `copied` are the components that were copied, `pending` the closing
-- goroutines that have not called Close, `closed` the calls of Close that were made. `done` counts
-- the times that the channel `done` is closed, which must not be two.
pub record ShutdownManager : Type 0 where
  pub components : List ℕ
  pub once : Bool
  pub phase : Phase
  pub copied : List ℕ
  pub pending : List ℕ
  pub closed : List ℕ
  pub selecting : Bool
  pub timed_out : Bool
  pub done : ℕ
  pub in_flight : InFlightTracker

unfoldable pub new_shutdown_manager : ShutdownManager
unfolding new_in_flight_tracker
new_shutdown_manager = record {
  components = [];
  once = false;
  phase = idle;
  copied = [];
  pending = [];
  closed = [];
  selecting = false;
  timed_out = false;
  done = 0;
  in_flight = new_in_flight_tracker;
}

unfoldable pub register_component : ℕ → ShutdownManager → ShutdownManager
register_component c s = record s { components = s.components ++ (c ∷ []) }

-- The call of Shutdown up to its `select`. A second call waits for the first and does nothing.
unfoldable pub begin_shutdown : ShutdownManager → ShutdownManager
begin_shutdown s =
    if s.once then s else record s { once = true; phase = starting; selecting = true }

-- `shutdownComponents` copies the components and starts a goroutine for each.
unfoldable pub copy_components : ShutdownManager → ShutdownManager
copy_components s = record s { phase = closing; copied = s.components; pending = s.components }

abbrev pub remove_at : ℕ → List ℕ → List ℕ
remove_at i [] = []
remove_at zero (x ∷ xs) = xs
remove_at (suc i) (x ∷ xs) = x ∷ remove_at i xs

-- The goroutine at place `i` closes its component `c`; an error of Close is only counted.
unfoldable pub close_component : ℕ → ℕ → ShutdownManager → ShutdownManager
close_component i c s = record s { pending = remove_at i s.pending; closed = c ∷ s.closed }

-- After the last component: the tracker is closed, and the goroutine waits for the operations.
unfoldable pub begin_draining : ShutdownManager → ShutdownManager
unfolding close_tracker
begin_draining s = record s { phase = draining; in_flight = close_tracker s.in_flight }

unfoldable pub finish_components : ShutdownManager → ShutdownManager
finish_components s = record s { phase = finished }

-- The end of `Shutdown`, after the goroutine returned or the timeout passed.
unfoldable pub end_shutdown : Bool → ShutdownManager → ShutdownManager
end_shutdown timed_out s = record s { selecting = false; timed_out = timed_out; done = suc s.done }

unfoldable pub is_shutdown : ShutdownManager → Bool
is_shutdown s = if s.done == 0 then false else true

-- How often a component occurs.
abbrev pub occurrences : ℕ → List ℕ → ℕ
occurrences c = sum_by (λ x. if x == c then 1 else 0)
