-- ===== src/Shutdown/Once.antt =====
-- shutdown/shutdown.go: every component is closed once, and the end is announced once.
use go_rabbitmq.Base.{ℕ, ◌-◌, ◌≤◌, ◌≡◌, ◌⊎◌, inl, inr, ap, true, false, Bool-cases, arith}
use go_rabbitmq.Shutdown.State.{ShutdownManager, new_shutdown_manager, occurrences, operation_done}
use go_rabbitmq.Shutdown.Run.{
  Step, registers, shuts_down, copies, closes, drains, drained, drain_times_out, completes,
  times_out, operation_starts, operation_ends, Reach, here, then_step,
}
use go_rabbitmq.Shutdown.Coherent.{
  IsCoherent, flag, rank, none_left-occurrences, flag-eq, new_shutdown_manager-IsCoherent,
  register_component-IsCoherent, begin_shutdown-IsCoherent, copy_components-IsCoherent,
  close_component-IsCoherent, begin_draining-IsCoherent, finish_components-IsCoherent,
  end_shutdown-IsCoherent, counter-IsCoherent, start_operation-IsCoherent,
}

Step-IsCoherent : {s t : ShutdownManager} → Step s t → IsCoherent s → IsCoherent t
unfolding operation_done
Step-IsCoherent {s = s} (registers c) h = register_component-IsCoherent c s h
Step-IsCoherent {s = s} shuts_down h = begin_shutdown-IsCoherent s h
Step-IsCoherent {s = s} (copies e) h = copy_components-IsCoherent s e h
Step-IsCoherent {s = s} (closes i c e g) h = close_component-IsCoherent i c s e g h
Step-IsCoherent {s = s} (drains e n) h = begin_draining-IsCoherent s e n h
Step-IsCoherent {s = s} (drained e n) h = finish_components-IsCoherent s e h
Step-IsCoherent {s = s} (drain_times_out e) h = finish_components-IsCoherent s e h
Step-IsCoherent {s = s} (completes e f) h = end_shutdown-IsCoherent false s e (λ q. ap rank f) h
Step-IsCoherent {s = s} (times_out e) h = end_shutdown-IsCoherent true s e (λ q. omega (arith, q)) h
Step-IsCoherent {s = s} operation_starts h = start_operation-IsCoherent s h
Step-IsCoherent {s = s} (operation_ends p) h = counter-IsCoherent (s.in_flight.count - 1) s h

Reach-IsCoherent : {s t : ShutdownManager} → Reach s t → IsCoherent s → IsCoherent t
Reach-IsCoherent here h = h
Reach-IsCoherent (then_step r p) h = Step-IsCoherent p (Reach-IsCoherent r h)

-- What has been done once the shutdown has ended without a timeout.
abbrev pub IsComplete : ShutdownManager → Type 0
IsComplete s =
    ((c : ℕ) → occurrences c s.closed ≡ occurrences c s.copied) × (s.in_flight.closed ≡ true)

ended-IsComplete :
    (s : ShutdownManager) → IsCoherent s → s.done ≡ 1 → s.timed_out ≡ false → IsComplete s
ended-IsComplete s h d e =
    let last = h.ended (omega (arith, d)) (ap flag e) in
    (
      λ c. omega (
        arith,
        h.counted c,
        none_left-occurrences c s.pending (h.none_left (omega (arith, last))),
      ),
      flag-eq s.in_flight.closed (h.refused (omega (arith, last))),
    )

how_ended :
    (s : ShutdownManager)
    → IsCoherent s
    → (s.done ≡ 0) ⊎ (s.done ≡ 1)
    → (s.timed_out ≡ true) ⊎ (s.timed_out ≡ false)
    → (s.done ≡ 0) ⊎ ((s.timed_out ≡ true) ⊎ IsComplete s)
how_ended s h (inl z) o = inl z
how_ended s h (inr d) (inl late) = inr (inl late)
how_ended s h (inr d) (inr e) = inr (inr (ended-IsComplete s h d e))

-- On every run of registrations, calls of Shutdown, closing goroutines and operations, in any order:
-- the channel `done` is closed at most once, and no component is closed more often than it was
-- registered. Either it is not closed yet, or the shutdown timed out, or each component that was
-- registered when the goroutine of the shutdown copied them has been closed as often as it was
-- registered then, and the tracker refuses operations.
pub shutdown_once :
    (s : ShutdownManager)
    → Reach new_shutdown_manager s
    → (s.done ≤ 1)
      × ((c : ℕ) → occurrences c s.closed ≤ occurrences c s.components)
      × ((s.done ≡ 0) ⊎ ((s.timed_out ≡ true) ⊎ IsComplete s))
shutdown_once s r =
    let h = Reach-IsCoherent r new_shutdown_manager-IsCoherent in
    (
      ground (arith, h.announced),
      λ c. omega (arith, h.counted c, h.known c),
      how_ended s h (ground (arith, h.announced)) (Bool-cases s.timed_out),
    )
