-- ===== src/Shutdown/Coherent.antt =====
-- shutdown/shutdown.go: what every section of a shutdown keeps.
use go_rabbitmq.Base.{
  ℕ, zero, suc, ◌+◌, ◌≤◌, ◌≡◌, refl, ap, Bool, true, false, some, List, [], ◌∷◌, ◌==◌,
  if◌then◌else◌, length, sum_by-append, get_elem?, arith, Bool-cases, inl, inr, if_either, if_holds,
  if_fails, ◌*◌,
}
use go_rabbitmq.Shutdown.State.{
  ShutdownManager, InFlightTracker, Phase, idle, starting, closing, draining, finished,
  new_shutdown_manager, register_component, begin_shutdown, copy_components, close_component,
  begin_draining, finish_components, end_shutdown, remove_at, occurrences, start_operation,
  close_tracker,
}

abbrev pub flag : Bool → ℕ
flag b = if b then 1 else 0

-- Phases by number, in the order in which they come.
abbrev pub rank : Phase → ℕ
rank idle = 0
rank starting = 1
rank closing = 2
rank draining = 3
rank finished = 4

pub record IsCoherent (s : ShutdownManager) : Type 0 where
  pub announced : s.done + flag s.selecting ≡ flag s.once
  pub begun : rank s.phase ≤ 4 * flag s.once
  pub counted : (c : ℕ) → occurrences c s.pending + occurrences c s.closed ≡ occurrences c s.copied
  pub known : (c : ℕ) → occurrences c s.copied ≤ occurrences c s.components
  pub fresh : rank s.phase ≤ 1 → (c : ℕ) → occurrences c s.closed ≡ 0
  pub none_left : 3 ≤ rank s.phase → length s.pending ≡ 0
  pub refused : 3 ≤ rank s.phase → flag s.in_flight.closed ≡ 1
  pub ended : 1 ≤ s.done → flag s.timed_out ≡ 0 → rank s.phase ≡ 4

occurrences-remove_at :
    (d i c : ℕ) (xs : List ℕ)
    → get_elem? xs i ≡ some c
    → occurrences d (remove_at i xs) + flag (c == d) ≡ occurrences d xs
occurrences-remove_at d i c [] h = cc
occurrences-remove_at d zero c (x ∷ xs) h = ground arith
occurrences-remove_at d (suc i) c (x ∷ xs) h = omega (arith, occurrences-remove_at d i c xs h)

pub none_left-occurrences : (c : ℕ) (xs : List ℕ) → length xs ≡ 0 → occurrences c xs ≡ 0
none_left-occurrences c [] h = refl
none_left-occurrences c (x ∷ xs) h = omega (arith, h)

pub flag-eq : (b : Bool) → flag b ≡ 1 → b ≡ true
flag-eq true h = refl
flag-eq false h = ground arith

pub new_shutdown_manager-IsCoherent : IsCoherent new_shutdown_manager
unfolding new_shutdown_manager
new_shutdown_manager-IsCoherent = record {
  announced = refl;
  begun = omega arith;
  counted = λ c. refl;
  known = λ c. omega arith;
  fresh = λ p c. refl;
  none_left = λ p. refl;
  refused = λ p. omega arith;
  ended = λ p e. omega arith;
}

pub register_component-IsCoherent :
    (c : ℕ) (s : ShutdownManager) → IsCoherent s → IsCoherent (register_component c s)
unfolding register_component
register_component-IsCoherent c s h = record {
  announced = h.announced;
  begun = h.begun;
  counted = h.counted;
  known = λ d.
      omega (arith, h.known d, sum_by-append (λ x. if x == d then 1 else 0) s.components (c ∷ []));
  fresh = h.fresh;
  none_left = h.none_left;
  refused = h.refused;
  ended = h.ended;
}

begun_shutdown-IsCoherent :
    (s : ShutdownManager)
    → s.once ≡ false
    → IsCoherent s
    → IsCoherent (record s { once = true; phase = starting; selecting = true })
begun_shutdown-IsCoherent s e h =
    let off = ap flag e in
    record {
      announced = omega (arith, h.announced, off);
      begun = omega arith;
      counted = h.counted;
      known = h.known;
      fresh = λ p. h.fresh (omega (arith, h.begun, off));
      none_left = λ p. omega arith;
      refused = λ p. omega arith;
      ended = λ p q. omega (arith, h.announced, off);
    }

pub begin_shutdown-IsCoherent : (s : ShutdownManager) → IsCoherent s → IsCoherent (begin_shutdown s)
unfolding begin_shutdown
begin_shutdown-IsCoherent s h = elim (Bool-cases s.once) [
  | inl e ↦ if_holds IsCoherent s.once _ _ e h
  | inr e ↦ if_fails IsCoherent s.once _ _ e (begun_shutdown-IsCoherent s e h)
]

pub copy_components-IsCoherent :
    (s : ShutdownManager) → s.phase ≡ starting → IsCoherent s → IsCoherent (copy_components s)
unfolding copy_components
copy_components-IsCoherent s e h =
    let r = ap rank e in
    record {
      announced = h.announced;
      begun = omega (arith, h.begun, r);
      counted = λ c. omega (arith, h.fresh (omega (arith, r)) c);
      known = λ c. omega arith;
      fresh = λ p. omega arith;
      none_left = λ p. omega arith;
      refused = λ p. omega arith;
      ended = λ p q. omega (arith, h.ended p q, r);
    }

pub close_component-IsCoherent :
    (i c : ℕ) (s : ShutdownManager)
    → s.phase ≡ closing
    → get_elem? s.pending i ≡ some c
    → IsCoherent s
    → IsCoherent (close_component i c s)
unfolding close_component
close_component-IsCoherent i c s e g h =
    let r = ap rank e in
    record {
      announced = h.announced;
      begun = h.begun;
      counted = λ d. omega (arith, h.counted d, occurrences-remove_at d i c s.pending g);
      known = h.known;
      fresh = λ p. omega (arith, r);
      none_left = λ p. omega (arith, r);
      refused = h.refused;
      ended = h.ended;
    }

pub begin_draining-IsCoherent :
    (s : ShutdownManager)
    → s.phase ≡ closing
    → s.pending ≡ []
    → IsCoherent s
    → IsCoherent (begin_draining s)
unfolding begin_draining close_tracker
begin_draining-IsCoherent s e n h =
    let r = ap rank e in
    record {
      announced = h.announced;
      begun = omega (arith, h.begun, r);
      counted = h.counted;
      known = h.known;
      fresh = λ p. omega arith;
      none_left = λ p. ap length n;
      refused = λ p. refl;
      ended = λ p q. omega (arith, h.ended p q, r);
    }

pub finish_components-IsCoherent :
    (s : ShutdownManager) → s.phase ≡ draining → IsCoherent s → IsCoherent (finish_components s)
unfolding finish_components
finish_components-IsCoherent s e h =
    let r = ap rank e in
    record {
      announced = h.announced;
      begun = omega (arith, h.begun, r);
      counted = h.counted;
      known = h.known;
      fresh = λ p. omega arith;
      none_left = λ p. h.none_left (omega (arith, r));
      refused = λ p. h.refused (omega (arith, r));
      ended = λ p q. refl;
    }

pub end_shutdown-IsCoherent :
    (b : Bool) (s : ShutdownManager)
    → s.selecting ≡ true
    → (flag b ≡ 0 → rank s.phase ≡ 4)
    → IsCoherent s
    → IsCoherent (end_shutdown b s)
unfolding end_shutdown
end_shutdown-IsCoherent b s e f h = record {
  announced = omega (arith, h.announced, ap flag e);
  begun = h.begun;
  counted = h.counted;
  known = h.known;
  fresh = h.fresh;
  none_left = h.none_left;
  refused = h.refused;
  ended = λ p q. f q;
}

-- A change of the number of operations that keeps the tracker closed or open.
pub counter-IsCoherent :
    (n : ℕ) (s : ShutdownManager)
    → IsCoherent s
    → IsCoherent (record s { in_flight = record s.in_flight { count = n } })
counter-IsCoherent n s h = record {
  announced = h.announced;
  begun = h.begun;
  counted = h.counted;
  known = h.known;
  fresh = h.fresh;
  none_left = h.none_left;
  refused = h.refused;
  ended = h.ended;
}

pub start_operation-IsCoherent :
    (s : ShutdownManager)
    → IsCoherent s
    → IsCoherent (record s { in_flight = (start_operation s.in_flight).1 })
unfolding start_operation
start_operation-IsCoherent s h =
    if_either (λ (p : Bool × InFlightTracker). IsCoherent (record s { in_flight = p.1 }))
      s.in_flight.closed _ _ h (counter-IsCoherent (suc s.in_flight.count) s h)
