-- ===== src/Publisher/Outcome/Reached.antt =====
-- Every message of a reachable state is sound.
use mathlib.Core.Option.{some-injective}
use go_rabbitmq.Base.{
  ℕ, ◌+◌, ◌≡◌, sym, ap, subst, ◌∙◌, Bool, true, false, Option, none, some, ◌++◌, ◌==◌, not, ◌&&◌,
  ltb, arith, inl, inr, Option-cases, if_either, get_elem?, set, All-set, All-append,
}
use go_rabbitmq.PendingMap.{load_by_delivery_tag}
use go_rabbitmq.Publisher.State.{
  armed_timeout, armed_grace, PendingMessage, ConfirmGeneration, Task, finish_async, retry_message,
  Publisher,
}
use go_rabbitmq.Publisher.Handlers.{attempt, send_returned, grace_locked}
use go_rabbitmq.Publisher.Effects.{
  locked_at, on_loaded, handle_mandatory_grace_period_expired, note_response, handle_confirmation,
  handle_return,
}
use go_rabbitmq.Publisher.Track.{
  Registered, add_tracked, register_on, register, SendResult, send_failed, sent, undo_publish,
  with_current, next_tag, with_tag, rekey_pending, resynchronise, was_decided, finish_publish,
  done_at, send_done, give_up_retry, republish, run_retry, install_confirm_generation, run_task,
}
use go_rabbitmq.Publisher.Run.{
  close_channel, Step, registers, send_fails, send_succeeds, confirms, returns, times_out,
  confirms_at, returns_at, times_out_at, grace_expires, grace_handled, orphans, dies, orphans_at,
  channel_closes, installs, runs, closes, Reach, here, next,
}
use go_rabbitmq.Publisher.Outcome.{
  Sound, confirmation-Sound, return-Sound, timeout-Sound, grace-Sound, orphan-Sound, attempt-Sound,
  send_returned-Sound, counted_retry-Sound,
}
use go_rabbitmq.Publisher.Outcome.Effects.{
  HeapSound, locked_at-HeapSound, on_loaded-HeapSound, at_heap-HeapSound, timeout-HeapSound,
  mark_dead-HeapSound, fail_orphans-HeapSound,
}

with_current-HeapSound :
    (f : ConfirmGeneration → ConfirmGeneration) (s : Publisher)
    → HeapSound s
    → HeapSound (with_current f s)
with_current-HeapSound f s h = elim (Option-cases (get_elem? s.generations s.confirm_gen)) [
  | inl e ↦ rw (e, with_current) h
  | inr (gen, e) ↦ rw (e, with_current) h
]

register-HeapSound :
    (ctx_error : Bool) (timeout : ℕ) (m : PendingMessage) (s : Publisher)
    → HeapSound s
    → HeapSound (register ctx_error timeout (attempt m) s).0
unfolding register register_on add_tracked
register-HeapSound ctx_error timeout m s h =
    let P = λ (r : Publisher × Registered). HeapSound r.0 in
    if_either P s.closed _ _ h (elim (Option-cases (get_elem? s.generations s.confirm_gen)) [
      | inl e ↦ rw e h
      | inr (gen, e) ↦ rw e (
          if_either P gen.ch_closed _ _ h (
            if_either P ctx_error _ _ h (
              if_either P gen.dead _ _ h (
                if_either P _ _ _ (All-append Sound s.heap _ h (attempt-Sound gen timeout m, tt))
                  h))))
    ])

rekey-Sound :
    (key tag : ℕ) (m : PendingMessage)
    → Sound m
    → Sound (record m { key = key; broker_tag = tag; timeout_timer = armed_timeout key })
rekey-Sound key tag m h = ground arith

rekey_pending-HeapSound :
    (p generation tag : ℕ) (s : Publisher)
    → HeapSound s
    → HeapSound (rekey_pending p generation tag s)
unfolding rekey_pending
rekey_pending-HeapSound p generation tag s h =
    at_heap-HeapSound p _ s
      (λ m sound.
        if_either HeapSound m.callback_fired _ _ h
          (All-set Sound s.heap p _ (rekey-Sound _ tag m sound) h))
      h

resynchronise-HeapSound :
    (p : ℕ) (m : PendingMessage) (o : Option ℕ) (s : Publisher)
    → HeapSound s
    → HeapSound (resynchronise p m o s)
unfolding resynchronise
resynchronise-HeapSound p m none s h = h
resynchronise-HeapSound p m (some tag) s h = if_either HeapSound (tag == m.broker_tag) _ _ h (
    with_current-HeapSound (with_tag tag) (rekey_pending p m.generation tag s)
      (rekey_pending-HeapSound p m.generation tag s h))

done_at-HeapSound :
    (result : SendResult) (p : ℕ) (s : Publisher) (m : PendingMessage)
    → Sound m
    → HeapSound s
    → HeapSound (done_at result p s m)
unfolding undo_publish finish_publish
done_at-HeapSound send_failed p s m sound h =
    All-set Sound s.heap p _ (send_returned-Sound false m sound) h
done_at-HeapSound (sent o) p s m sound h =
    let h' =
      with_current-HeapSound next_tag
        (record s { heap = set s.heap p (send_returned true m); sending = none })
        (All-set Sound s.heap p _ (send_returned-Sound true m sound) h) in
    resynchronise-HeapSound p m o _ (
      if_either HeapSound m.orphan_deferred _ _
        (locked_at-HeapSound _ p _ (λ m' e. orphan-Sound m.orphan_reason m') h')
        (if_either HeapSound (m.timeout_deferred && not (was_decided m)) _ _
          (timeout-HeapSound m.key _ h') h'))

send_done-HeapSound :
    (result : SendResult) (s : Publisher) → HeapSound s → HeapSound (send_done result s)
unfolding send_done
send_done-HeapSound result s h =
    on_loaded-HeapSound s.sending _ s
      (λ p. at_heap-HeapSound p _ s (λ m sound. done_at-HeapSound result p s m sound h) h) h

run_retry-HeapSound :
    (p : ℕ) (m : PendingMessage) (s : Publisher)
    → Sound m
    → HeapSound s
    → HeapSound (run_retry p m s)
unfolding run_retry give_up_retry republish
run_retry-HeapSound p m s sound h =
    let h' = All-set Sound s.heap p _ (counted_retry-Sound m sound) h in
    if_either HeapSound (ltb s.config.max_retry_attempts (m.retry_count + 1)) _ _ h' h'

run_task-HeapSound : (p : ℕ) (t : Task) (s : Publisher) → HeapSound s → HeapSound (run_task p t s)
unfolding run_task
run_task-HeapSound p (finish_async i k c o r) s h = h
run_task-HeapSound p retry_message s h =
    at_heap-HeapSound p _ s (λ m sound. run_retry-HeapSound p m s sound h) h

grace_at-HeapSound :
    (key p : ℕ) (m : PendingMessage) (s : Publisher)
    → get_elem? s.heap p ≡ some m
    → m.timeout_timer ≡ armed_grace key
    → HeapSound s
    → HeapSound (locked_at (grace_locked key) p s)
grace_at-HeapSound key p m s e armed h =
    locked_at-HeapSound _ p s
      (λ m' e'.
        grace-Sound key key m'
          (ap (λ x. x.timeout_timer) (some-injective _ _ (sym e' ∙ e)) ∙ armed))
      h

pub grace_handled-eq :
    (key p : ℕ) (s : Publisher)
    → load_by_delivery_tag key s.pending_messages ≡ some p
    → handle_mandatory_grace_period_expired key s ≡ locked_at (grace_locked key) p s
unfolding handle_mandatory_grace_period_expired
grace_handled-eq key p s h = ap (λ o. on_loaded o (λ q. locked_at (grace_locked key) q s) s) h

Step-HeapSound :
    {Fails : Publisher → Type 0} (s : Publisher) {t : Publisher}
    → Step Fails s t
    → HeapSound s
    → HeapSound t
Step-HeapSound s (registers ctx timeout m e) h = register-HeapSound ctx timeout m s h
Step-HeapSound s (send_fails d) h = send_done-HeapSound send_failed s h
Step-HeapSound s (send_succeeds o) h = send_done-HeapSound (sent o) s h
Step-HeapSound s (confirms g tag ack) h =
    unfold handle_confirmation note_response in
    on_loaded-HeapSound _ _ _
      (λ p. locked_at-HeapSound _ p _ (λ m e. confirmation-Sound s.config ack m) h) h
Step-HeapSound s (returns id text code) h =
    unfold handle_return note_response in
    on_loaded-HeapSound _ _ _
      (λ p. locked_at-HeapSound _ p _ (λ m e. return-Sound s.config text code m) h) h
Step-HeapSound s (times_out key) h = timeout-HeapSound key s h
Step-HeapSound s (confirms_at ack p) h =
    locked_at-HeapSound _ p s (λ m e. confirmation-Sound s.config ack m) h
Step-HeapSound s (returns_at text code p) h =
    locked_at-HeapSound _ p s (λ m e. return-Sound s.config text code m) h
Step-HeapSound s (times_out_at key p) h =
    locked_at-HeapSound _ p s (λ m e. timeout-Sound s.config key m) h
Step-HeapSound s (grace_expires key p m e armed) h = grace_at-HeapSound key p m s e armed h
Step-HeapSound s (grace_handled key p m o e armed) h =
    subst HeapSound (sym (grace_handled-eq key p s o)) (grace_at-HeapSound key p m s e armed h)
Step-HeapSound s (orphans g reason) h = fail_orphans-HeapSound g reason s h
Step-HeapSound s (dies g) h = mark_dead-HeapSound g s h
Step-HeapSound s (orphans_at reason p) h =
    locked_at-HeapSound _ p s (λ m e. orphan-Sound reason m) h
Step-HeapSound s channel_closes h = with_current-HeapSound close_channel s h
Step-HeapSound s (installs e o) h = unfold install_confirm_generation in h
Step-HeapSound s (runs p t xs ys e) h = run_task-HeapSound p t (record s { tasks = xs ++ ys }) h
Step-HeapSound s closes h = h

pub Reach-HeapSound :
    {Fails : Publisher → Type 0} (s : Publisher) {t : Publisher}
    → HeapSound s
    → Reach Fails s t
    → HeapSound t
Reach-HeapSound s h here = h
Reach-HeapSound s h (next {t} r st) = Step-HeapSound t st (Reach-HeapSound s h r)
