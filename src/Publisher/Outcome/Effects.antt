-- ===== src/Publisher/Outcome/Effects.antt =====
-- The handlers keep every message in the heap sound.
use go_rabbitmq.Base.{
  ℕ, ◌≡◌, sym, subst, String, Option, none, some, List, [], ◌∷◌, inl, inr, Option-cases, if_either,
  get_elem?, set, All, All-set, All-get,
}
use go_rabbitmq.Publisher.State.{PendingMessage, Effect, Publisher}
use go_rabbitmq.Publisher.Handlers.{Locked}
use go_rabbitmq.Publisher.Effects.{
  apply_effects, locked_at, on_loaded, handle_timeout, settle_all, mark_dead, fail_orphans,
}
use go_rabbitmq.Publisher.Track.{at_heap}
use go_rabbitmq.Publisher.Books.Effects.{effects-Told}
use go_rabbitmq.Publisher.Outcome.{Sound, timeout-Sound, orphan-Sound}

abbrev pub HeapSound : Publisher → Type 0
HeapSound s = All Sound s.heap

effects-HeapSound :
    (p : ℕ) (es : List Effect) (s : Publisher) → HeapSound s → HeapSound (apply_effects p es s)
effects-HeapSound p es s h = subst (All Sound) (sym (effects-Told p es s).heap) h

-- A locked section that keeps the message's invariant, if only for the message at hand.
pub locked_at-HeapSound :
    (f : PendingMessage → Locked) (p : ℕ) (s : Publisher)
    → ((m : PendingMessage) → get_elem? s.heap p ≡ some m → Sound m → Sound (f m).0)
    → HeapSound s
    → HeapSound (locked_at f p s)
unfolding locked_at
locked_at-HeapSound f p s keep h = elim (Option-cases (get_elem? s.heap p)) [
  | inl e ↦ rw (e, locked_at) h
  | inr (m, e) ↦
      rw (e, locked_at)
        (effects-HeapSound p (f m).1 (record s { heap = set s.heap p (f m).0 })
          (All-set Sound s.heap p (f m).0 (keep m e (All-get Sound s.heap p m h e)) h))
]

pub on_loaded-HeapSound :
    (o : Option ℕ) (f : ℕ → Publisher) (s : Publisher)
    → ((p : ℕ) → HeapSound (f p))
    → HeapSound s
    → HeapSound (on_loaded o f s)
on_loaded-HeapSound none f s keep h = h
on_loaded-HeapSound (some p) f s keep h = keep p

pub at_heap-HeapSound :
    (p : ℕ) (f : PendingMessage → Publisher) (s : Publisher)
    → ((m : PendingMessage) → Sound m → HeapSound (f m))
    → HeapSound s
    → HeapSound (at_heap p f s)
at_heap-HeapSound p f s keep h = elim (Option-cases (get_elem? s.heap p)) [
  | inl e ↦ rw (e, at_heap) h
  | inr (m, e) ↦ rw (e, at_heap) (keep m (All-get Sound s.heap p m h e))
]

pub timeout-HeapSound : (key : ℕ) (s : Publisher) → HeapSound s → HeapSound (handle_timeout key s)
unfolding handle_timeout
timeout-HeapSound key s h =
    on_loaded-HeapSound _ _ s
      (λ p. locked_at-HeapSound _ p s (λ m e. timeout-Sound s.config key m) h) h

settle_all-HeapSound :
    (reason : String) (ps : List ℕ) (s : Publisher)
    → HeapSound s
    → HeapSound (settle_all reason ps s)
unfolding settle_all
settle_all-HeapSound reason [] s h = h
settle_all-HeapSound reason (p ∷ ps) s h =
    settle_all-HeapSound reason ps _ (locked_at-HeapSound _ p s (λ m e. orphan-Sound reason m) h)

pub mark_dead-HeapSound : (g : ℕ) (s : Publisher) → HeapSound s → HeapSound (mark_dead g s)
mark_dead-HeapSound g s h = elim (Option-cases (get_elem? s.generations g)) [
  | inl e ↦ rw (e, mark_dead) h
  | inr (gen, e) ↦ rw (e, mark_dead) h
]

pub fail_orphans-HeapSound :
    (g : ℕ) (reason : String) (s : Publisher) → HeapSound s → HeapSound (fail_orphans g reason s)
unfolding fail_orphans
fail_orphans-HeapSound g reason s h =
    if_either HeapSound s.closed _ _ h (settle_all-HeapSound reason _ _ (mark_dead-HeapSound g s h))
