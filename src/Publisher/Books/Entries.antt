-- ===== src/Publisher/Books/Entries.antt =====
-- Registering a message, undoing it and keying it again keep the books.
use go_rabbitmq.Base.{
  ℕ, ◌≡◌, refl, Bool, false, Option, none, some, List, [], ◌∷◌, ◌++◌, ◌==◌, arith, if◌then◌else◌,
  length, get_elem?, set, sum_by-set, sum_by-append, get_elem?-snoc_self, get_elem?-snoc_ne,
  get_elem?-end, Option-cases, if_either, inl, inr,
}
use go_rabbitmq.Publisher.State.{PendingMessage, ConfirmGeneration, Publisher}
use go_rabbitmq.Publisher.Handlers.{attempt, send_returned}
use go_rabbitmq.Publisher.Track.{
  Registered, tracked, add_tracked, register_on, register, undo_publish, with_current,
  rekey_pending, resynchronise,
}
use go_rabbitmq.Publisher.Settles.{to_ℕ}
use go_rabbitmq.Publisher.Books.{fired_at, decided, undecided, Books}
use go_rabbitmq.Publisher.Books.Effects.{fired_at-set, fired_at_of}

fired_at-snoc :
    (q : ℕ) (heap : List PendingMessage) (m : PendingMessage)
    → fired_at q (heap ++ m ∷ [])
      ≡ (if q == length heap then to_ℕ m.callback_fired else fired_at q heap)
fired_at-snoc q heap m = ground (arith, get_elem?-snoc_self heap m, get_elem?-snoc_ne heap m q)

add_tracked-Books :
    (m : PendingMessage) (s : Publisher)
    → m.callback_fired ≡ false
    → Books s
    → Books (add_tracked m s)
unfolding add_tracked
add_tracked-Books m s h b = record {
  claimed = λ q. ground (arith, b.claimed q, fired_at-snoc q s.heap m, get_elem?-end s.heap);
  counted = ground (arith, b.counted, sum_by-append undecided s.heap (m ∷ []));
}

-- A write to the heap that leaves the decision alone.
pub set-Books :
    (p : ℕ) (m m' : PendingMessage) (s t : Publisher)
    → get_elem? s.heap p ≡ some m
    → m'.callback_fired ≡ m.callback_fired
    → t.heap ≡ set s.heap p m'
    → t.tasks ≡ s.tasks
    → t.signals ≡ s.signals
    → (decided t.stats ≡ decided s.stats) × (t.stats.total_published ≡ s.stats.total_published)
    → Books s
    → Books t
set-Books p m m' s t e same heap tasks signals stats b = record {
  claimed =
      λ q. ground (arith, b.claimed q, fired_at-set p q s.heap m' m e, fired_at_of p s.heap m e);
  counted = ground (arith, b.counted, sum_by-set undecided s.heap p m' e);
}

fresh :
    (gen : ConfirmGeneration) (timeout : ℕ) (m : PendingMessage)
    → (tracked gen timeout (attempt m)).callback_fired ≡ false
unfolding tracked attempt
fresh gen timeout m = refl

register_on-Books :
    (gen : ConfirmGeneration) (ctx_error : Bool) (timeout : ℕ) (m : PendingMessage) (s : Publisher)
    → Books s
    → Books (register_on gen ctx_error timeout (attempt m) s).0
unfolding register_on
register_on-Books gen ctx_error timeout m s b =
    let P = λ (r : Publisher × Registered). Books r.0 in
    let entry = tracked gen timeout (attempt m) in
    if_either P gen.ch_closed _ _ b (
      if_either P ctx_error _ _ b (
        if_either P gen.dead _ _ b
          (if_either P _ _ _ (add_tracked-Books entry s (fresh gen timeout m) b) b)))

pub register-Books :
    (ctx_error : Bool) (timeout : ℕ) (m : PendingMessage) (s : Publisher)
    → Books s
    → Books (register ctx_error timeout (attempt m) s).0
unfolding register
register-Books ctx_error timeout m s b =
    let P = λ (r : Publisher × Registered). Books r.0 in
    if_either P s.closed _ _ b (elim (Option-cases (get_elem? s.generations s.confirm_gen)) [
      | inl e ↦ rw e b
      | inr (gen, e) ↦ rw e (register_on-Books gen ctx_error timeout m s b)
    ])

pub undo_publish-Books :
    (p : ℕ) (m : PendingMessage) (s : Publisher)
    → get_elem? s.heap p ≡ some m
    → m.callback_fired ≡ false
    → Books s
    → Books (undo_publish p m s)
unfolding undo_publish send_returned
undo_publish-Books p m s e h b = record {
  claimed = λ q. ground (
    arith,
    b.claimed q,
    fired_at-set p q s.heap (send_returned false m) m e,
    fired_at_of p s.heap m e,
  );
  counted = ground (arith, b.counted, sum_by-set undecided s.heap p (send_returned false m) e);
}

pub with_current-Books :
    (f : ConfirmGeneration → ConfirmGeneration) (s : Publisher) → Books s → Books (with_current f s)
with_current-Books f s b = elim (Option-cases (get_elem? s.generations s.confirm_gen)) [
  | inl e ↦ rw (e, with_current) b
  | inr (gen, e) ↦ rw (e, with_current) (record { claimed = b.claimed; counted = b.counted })
]

rekey_pending-Books :
    (p generation tag : ℕ) (s : Publisher) → Books s → Books (rekey_pending p generation tag s)
unfolding rekey_pending
rekey_pending-Books p generation tag s b = elim (Option-cases (get_elem? s.heap p)) [
  | inl e ↦ rw (e, rekey_pending) b
  | inr (m, e) ↦
      rw (e, rekey_pending)
        (if_either Books m.callback_fired _ _ b
          (set-Books p m _ s _ e refl refl refl refl (refl, refl) b))
]

pub resynchronise-Books :
    (p : ℕ) (m : PendingMessage) (o : Option ℕ) (s : Publisher)
    → Books s
    → Books (resynchronise p m o s)
unfolding resynchronise
resynchronise-Books p m none s b = b
resynchronise-Books p m (some tag) s b =
    if_either Books (tag == m.broker_tag) _ _ b
      (with_current-Books _ _ (rekey_pending-Books p m.generation tag s b))
