-- ===== src/Publisher/Books/Sends.antt =====
-- The end of a send, the tasks and the retries keep the books.
use go_rabbitmq.Base.{
  ℕ, ◌+◌, ◌≡◌, refl, ap, true, false, not, ◌&&◌, Option, none, some, List, [], ◌∷◌, ◌++◌, ◌==◌, ltb,
  arith, if◌then◌else◌, get_elem?, set, sum_by, Option-cases, if_either, inl, inr,
}
use go_rabbitmq.Message.{nacked}
use go_rabbitmq.Publisher.State.{
  PendingMessage, nacked_after_retries, Signal, called, republished, Task, finish_async,
  retry_message, Publisher,
}
use go_rabbitmq.Publisher.Handlers.{send_returned}
use go_rabbitmq.Publisher.Effects.{on_loaded}
use go_rabbitmq.Publisher.Track.{
  send_failed, sent, next_tag, after_send, was_decided, finish_publish, at_heap, done_at, send_done,
  counted_retry, give_up_retry, republish, run_retry, run_task,
}
use go_rabbitmq.Publisher.Settles.{orphan-Settles}
use go_rabbitmq.Publisher.Books.{hits, fired_at, decided, undecided, Books}
use go_rabbitmq.Publisher.Books.Effects.{locked_at-Books}
use go_rabbitmq.Publisher.Books.Handlers.{on_loaded-Books, handle_timeout-Books}
use go_rabbitmq.Publisher.Books.Entries.{
  set-Books, undo_publish-Books, with_current-Books, resynchronise-Books,
}

module _ (p : ℕ) (m : PendingMessage) (s : Publisher) (e : get_elem? s.heap p ≡ some m)
    (b : Books s) where
  sent_state-Books : Books (after_send p m s)
  unfolding send_returned
  sent_state-Books =
      let s' = record s { heap = set s.heap p (send_returned true m); sending = none } in
      with_current-Books next_tag s'
        (set-Books p m (send_returned true m) s s' e refl refl refl refl (refl, refl) b)

  finish_publish-Books : (o : Option ℕ) → Books (finish_publish p m o s)
  unfolding finish_publish
  finish_publish-Books o =
      let b' = sent_state-Books in
      resynchronise-Books p m o _ (
        if_either Books m.orphan_deferred _ _ (locked_at-Books _ (orphan-Settles _) p _ b') (
          if_either Books (m.timeout_deferred && not (was_decided m)) _ _
            (handle_timeout-Books m.key _ b') b'))

hits-move {ℓ} :
    {A : Type ℓ} (q p : ℕ) (a : A) (xs ys : List (ℕ × A))
    → hits q (xs ++ (p, a) ∷ ys) ≡ hits q (xs ++ ys) + (if p == q then 1 else 0)
hits-move q p a [] ys = omega arith
hits-move q p a (x ∷ xs) ys = omega (arith, hits-move q p a xs ys)

-- A goroutine that leaves the list and gives its signal.
signal-Books :
    (p : ℕ) (t : Task) (sig : Signal) (xs ys : List (ℕ × Task)) (s u : Publisher)
    → Books s
    → s.tasks ≡ xs ++ (p, t) ∷ ys
    → u.heap ≡ s.heap
    → u.tasks ≡ xs ++ ys
    → u.signals ≡ (p, sig) ∷ s.signals
    → (decided u.stats ≡ decided s.stats) × (u.stats.total_published ≡ s.stats.total_published)
    → Books u
signal-Books p t sig xs ys s u b e heap tasks signals stats = record {
  claimed = λ q. ground (
    arith,
    b.claimed q,
    ap (hits q) e,
    hits-move q p t xs ys,
    ap (hits q) tasks,
    ap (hits q) signals,
    ap (fired_at q) heap,
  );
  counted = ground (arith, b.counted, ap (sum_by undecided) heap);
}

module _ (p : ℕ) (xs ys : List (ℕ × Task)) (s : Publisher) (m : PendingMessage)
    (e : get_elem? s.heap p ≡ some m) (h : s.tasks ≡ xs ++ (p, retry_message) ∷ ys)
    (b : Books s) where
  abbrev taken : Publisher
  taken = record s { tasks = xs ++ ys }

  abbrev counted : Publisher
  counted = record s { heap = set s.heap p (counted_retry m) }

  counted-Books : Books counted
  counted-Books = set-Books p m (counted_retry m) s counted e refl refl refl refl (refl, refl) b

  give_up_retry-Books : Books (give_up_retry p m taken)
  unfolding give_up_retry
  give_up_retry-Books =
      signal-Books p retry_message
        (called m.callback m.message_id nacked (nacked_after_retries (m.retry_count + 1))) xs ys
        counted _ counted-Books h refl refl refl (refl, refl)

  republish-Books : Books (republish p m taken)
  unfolding republish
  republish-Books =
      signal-Books p retry_message
        (republished m.original_message m.retry_options (m.retry_count + 1)) xs ys counted _
        counted-Books h refl refl refl (refl, refl)

  run_retry-Books : Books (run_retry p m taken)
  unfolding run_retry
  run_retry-Books =
      if_either Books (ltb s.config.max_retry_attempts (m.retry_count + 1)) _ _ give_up_retry-Books
        republish-Books

-- A goroutine that waits was started by a message on the heap.
task-alive :
    (p : ℕ) (t : Task) (xs ys : List (ℕ × Task)) (s : Publisher)
    → s.tasks ≡ xs ++ (p, t) ∷ ys
    → Books s
    → (m : PendingMessage) × (get_elem? s.heap p ≡ some m)
task-alive p t xs ys s h b = elim (Option-cases (get_elem? s.heap p)) [
  | inl e ↦ absurd (ground (arith, b.claimed p, ap (hits p) h, hits-move p p t xs ys))
  | inr alive ↦ alive
]

pub run_task-Books :
    (p : ℕ) (t : Task) (xs ys : List (ℕ × Task)) (s : Publisher)
    → s.tasks ≡ xs ++ (p, t) ∷ ys
    → Books s
    → Books (run_task p t (record s { tasks = xs ++ ys }))
unfolding run_task
run_task-Books p (finish_async i k c o r) xs ys s h b =
    signal-Books p _ _ xs ys s _ b h refl refl refl (refl, refl)
run_task-Books p retry_message xs ys s h b =
    let (m, e) = task-alive p retry_message xs ys s h b in
    rw (e, at_heap) (run_retry-Books p xs ys s m e h b)

at_heap-Books :
    (p : ℕ) (f : PendingMessage → Publisher) (s : Publisher)
    → ((m : PendingMessage) → get_elem? s.heap p ≡ some m → Books (f m))
    → Books s
    → Books (at_heap p f s)
at_heap-Books p f s h b = elim (Option-cases (get_elem? s.heap p)) [
  | inl e ↦ rw (e, at_heap) b
  | inr (m, e) ↦ rw (e, at_heap) (h m e)
]

-- The message whose send is in progress has not been decided.
abbrev pub SendUndecided : Publisher → Type 0
SendUndecided s =
    (p : ℕ) (m : PendingMessage)
    → s.sending ≡ some p
    → get_elem? s.heap p ≡ some m
    → m.callback_fired ≡ false

pub send_failed-Books :
    (s : Publisher) → SendUndecided s → Books s → Books (send_done send_failed s)
unfolding send_done
send_failed-Books s h b = elim (Option-cases s.sending) [
  | inl e ↦ simp (e, on_loaded) b
  | inr (p, e) ↦
      simp (e, on_loaded)
        (at_heap-Books p (done_at send_failed p s) s
          (λ m e'. undo_publish-Books p m s e' (h p m e e') b) b)
]

pub sent-Books : (o : Option ℕ) (s : Publisher) → Books s → Books (send_done (sent o) s)
unfolding send_done
sent-Books o s b =
    on_loaded-Books s.sending _ s
      (λ p. at_heap-Books p _ s (λ m e. finish_publish-Books p m s e b o) b) b
