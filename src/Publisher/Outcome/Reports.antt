-- ===== src/Publisher/Outcome/Reports.antt =====
-- What goroutines and callbacks report stays backed by the message, whatever is done.
use go_rabbitmq.Base.{
  ℕ, ◌+◌, ◌≡◌, refl, sym, subst, ◌∙◌, Bool, true, false, Option, none, some, List, [], ◌∷◌, ◌++◌,
  ◌==◌, not, ◌&&◌, ltb, inl, inr, Option-cases, if_either, get_elem?, set, get_elem?-set_self,
  String, All, All-middle,
}
use mathlib.Core.Option.{some-injective}
use go_rabbitmq.Publisher.State.{
  armed_timeout, PendingMessage, ConfirmGeneration, Task, finish_async, retry_message, Publisher,
}
use go_rabbitmq.Publisher.Handlers.{send_returned}
use go_rabbitmq.Publisher.Effects.{on_loaded, handle_timeout, settle_all, mark_dead, fail_orphans}
use go_rabbitmq.Publisher.Track.{
  Registered, add_tracked, register_on, register, SendResult, send_failed, sent, undo_publish,
  with_current, next_tag, with_tag, rekey_pending, resynchronise, was_decided, finish_publish,
  at_heap, done_at, send_done, give_up_retry, republish, run_retry, run_task, counted_retry,
}
use go_rabbitmq.Publisher.Outcome.Backed.{IsBacked, Keeps, Holds, AllBacked-set, AllBacked-append}
use go_rabbitmq.Publisher.Outcome.Locked.{PublisherBacked, locked_at-PublisherBacked}
use go_rabbitmq.Publisher.Outcome.Sections.{
  timeout-Reports, orphan-Reports, send_returned-Keeps, counted_retry-Keeps,
}

pub on_loaded-PublisherBacked :
    (o : Option ℕ) (f : ℕ → Publisher) (s : Publisher)
    → ((p : ℕ) → PublisherBacked (f p))
    → PublisherBacked s
    → PublisherBacked (on_loaded o f s)
on_loaded-PublisherBacked none f s keep b = b
on_loaded-PublisherBacked (some p) f s keep b = keep p

at_heap-PublisherBacked :
    (p : ℕ) (f : PendingMessage → Publisher) (s : Publisher)
    → ((m : PendingMessage) → get_elem? s.heap p ≡ some m → PublisherBacked (f m))
    → PublisherBacked s
    → PublisherBacked (at_heap p f s)
at_heap-PublisherBacked p f s keep b = elim (Option-cases (get_elem? s.heap p)) [
  | inl e ↦ rw (e, at_heap) b
  | inr (m, e) ↦ rw (e, at_heap) (keep m e)
]

pub timeout-PublisherBacked :
    (key : ℕ) (s : Publisher) → PublisherBacked s → PublisherBacked (handle_timeout key s)
unfolding handle_timeout
timeout-PublisherBacked key s b =
    on_loaded-PublisherBacked _ _ s
      (λ p. locked_at-PublisherBacked _ p s (timeout-Reports s.config key) b) b

settle_all-PublisherBacked :
    (reason : String) (ps : List ℕ) (s : Publisher)
    → PublisherBacked s
    → PublisherBacked (settle_all reason ps s)
unfolding settle_all
settle_all-PublisherBacked reason [] s b = b
settle_all-PublisherBacked reason (p ∷ ps) s b =
    settle_all-PublisherBacked reason ps _
      (locked_at-PublisherBacked _ p s (orphan-Reports reason) b)

pub mark_dead-PublisherBacked :
    (g : ℕ) (s : Publisher) → PublisherBacked s → PublisherBacked (mark_dead g s)
mark_dead-PublisherBacked g s b = elim (Option-cases (get_elem? s.generations g)) [
  | inl e ↦ rw (e, mark_dead) b
  | inr (gen, e) ↦ rw (e, mark_dead) b
]

pub fail_orphans-PublisherBacked :
    (g : ℕ) (reason : String) (s : Publisher)
    → PublisherBacked s
    → PublisherBacked (fail_orphans g reason s)
unfolding fail_orphans
fail_orphans-PublisherBacked g reason s b =
    if_either PublisherBacked s.closed _ _ b
      (settle_all-PublisherBacked reason _ _ (mark_dead-PublisherBacked g s b))

pub with_current-PublisherBacked :
    (f : ConfirmGeneration → ConfirmGeneration) (s : Publisher)
    → PublisherBacked s
    → PublisherBacked (with_current f s)
with_current-PublisherBacked f s b = elim (Option-cases (get_elem? s.generations s.confirm_gen)) [
  | inl e ↦ rw (e, with_current) b
  | inr (gen, e) ↦ rw (e, with_current) b
]

pub register-PublisherBacked :
    (ctx_error : Bool) (timeout : ℕ) (m : PendingMessage) (s : Publisher)
    → PublisherBacked s
    → PublisherBacked (register ctx_error timeout m s).0
unfolding register register_on add_tracked
register-PublisherBacked ctx_error timeout m s b =
    let P = λ (r : Publisher × Registered). PublisherBacked r.0 in
    if_either P s.closed _ _ b (elim (Option-cases (get_elem? s.generations s.confirm_gen)) [
      | inl e ↦ rw e b
      | inr (gen, e) ↦ rw e (
          if_either P gen.ch_closed _ _ b (
            if_either P ctx_error _ _ b (
              if_either P gen.dead _ _ b
                (if_either P _ _ _ (AllBacked-append s.heap _ s.tasks s.signals b) b))))
    ])

rekey-Keeps :
    (key tag : ℕ) (m : PendingMessage)
    → Keeps m (record m { key = key; broker_tag = tag; timeout_timer = armed_timeout key })
rekey-Keeps key tag m = record {
  message_id = refl;
  callback = refl;
  fired = λ h. h;
  outcome = λ h. refl;
  error = λ h. refl;
}

rekey_pending-PublisherBacked :
    (p generation tag : ℕ) (s : Publisher)
    → PublisherBacked s
    → PublisherBacked (rekey_pending p generation tag s)
unfolding rekey_pending
rekey_pending-PublisherBacked p generation tag s b =
    at_heap-PublisherBacked p _ s
      (λ m e.
        if_either PublisherBacked m.callback_fired _ _ b
          (AllBacked-set s.heap s.tasks s.signals p m _ e (rekey-Keeps _ tag m) b))
      b

resynchronise-PublisherBacked :
    (p : ℕ) (m : PendingMessage) (o : Option ℕ) (s : Publisher)
    → PublisherBacked s
    → PublisherBacked (resynchronise p m o s)
unfolding resynchronise
resynchronise-PublisherBacked p m none s b = b
resynchronise-PublisherBacked p m (some tag) s b =
    if_either PublisherBacked (tag == m.broker_tag) _ _ b (
      with_current-PublisherBacked (with_tag tag) (rekey_pending p m.generation tag s)
        (rekey_pending-PublisherBacked p m.generation tag s b))

send_failed_fires : (m : PendingMessage) → (send_returned false m).callback_fired ≡ true
unfolding send_returned
send_failed_fires m = refl

done_at-PublisherBacked :
    (result : SendResult) (p : ℕ) (s : Publisher) (m : PendingMessage)
    → get_elem? s.heap p ≡ some m
    → PublisherBacked s
    → PublisherBacked (done_at result p s m)
unfolding undo_publish finish_publish
done_at-PublisherBacked send_failed p s m e b =
    let (tasks, signals) =
      AllBacked-set s.heap s.tasks s.signals p m (send_returned false m) e
        (send_returned-Keeps false m) b in
    (
      tasks,
      (
        (
          send_returned false m,
          get_elem?-set_self s.heap p (send_returned false m) e,
          send_failed_fires m,
        ),
        signals,
      ),
    )
done_at-PublisherBacked (sent o) p s m e b =
    let b' =
      with_current-PublisherBacked next_tag
        (record s { heap = set s.heap p (send_returned true m); sending = none })
        (AllBacked-set s.heap s.tasks s.signals p m (send_returned true m) e
          (send_returned-Keeps true m) b) in
    resynchronise-PublisherBacked p m o _ (
      if_either PublisherBacked m.orphan_deferred _ _
        (locked_at-PublisherBacked _ p _ (orphan-Reports m.orphan_reason) b')
        (if_either PublisherBacked (m.timeout_deferred && not (was_decided m)) _ _
          (timeout-PublisherBacked m.key _ b') b'))

pub send_done-PublisherBacked :
    (result : SendResult) (s : Publisher) → PublisherBacked s → PublisherBacked (send_done result s)
unfolding send_done
send_done-PublisherBacked result s b =
    on_loaded-PublisherBacked s.sending _ s
      (λ p. at_heap-PublisherBacked p _ s (λ m e. done_at-PublisherBacked result p s m e b) b) b

run_retry-PublisherBacked :
    (p : ℕ) (m : PendingMessage) (s : Publisher)
    → get_elem? s.heap p ≡ some m
    → IsBacked retry_message m
    → PublisherBacked s
    → PublisherBacked (run_retry p m s)
unfolding run_retry give_up_retry republish
run_retry-PublisherBacked p m s e retried b =
    let (tasks, signals) =
      AllBacked-set s.heap s.tasks s.signals p m (counted_retry m) e (counted_retry-Keeps m) b in
    let at = get_elem?-set_self s.heap p (counted_retry m) e in
    if_either PublisherBacked (ltb s.config.max_retry_attempts (m.retry_count + 1)) _ _
      (
        tasks,
        ((counted_retry m, at, (retried.0, refl, refl, retried.1, inr (refl, refl))), signals),
      )
      (tasks, ((counted_retry m, at, retried), signals))

run_task-PublisherBacked :
    (p : ℕ) (t : Task) (s : Publisher)
    → Holds (IsBacked t) s.heap p
    → PublisherBacked s
    → PublisherBacked (run_task p t s)
unfolding run_task
run_task-PublisherBacked p (finish_async i k c o r) s (m, e, h) (tasks, signals) =
    (tasks, ((m, e, (h.0, h.1, h.2, h.3, inl h.4)), signals))
run_task-PublisherBacked p retry_message s (m, e, h) b =
    at_heap-PublisherBacked p _ s
      (λ m' e'.
        run_retry-PublisherBacked p m' s e'
          (subst (IsBacked retry_message) (some-injective m m' (sym e ∙ e')) h) b)
      b

pub runs-PublisherBacked :
    (p : ℕ) (t : Task) (xs ys : List (ℕ × Task)) (s : Publisher)
    → s.tasks ≡ xs ++ (p, t) ∷ ys
    → PublisherBacked s
    → PublisherBacked (run_task p t (record s { tasks = xs ++ ys }))
runs-PublisherBacked p t xs ys s e (tasks, signals) =
    let P = λ (x : ℕ × Task). Holds (IsBacked x.1) s.heap x.0 in
    let (it, others) = All-middle P xs (p, t) ys (subst (All P) e tasks) in
    run_task-PublisherBacked p t (record s { tasks = xs ++ ys }) it (others, signals)
