-- ===== src/Publisher/Deferred.antt =====
-- publisher.go: what came for a message in flight is settled when its send ends.
use go_rabbitmq.Base.{
  Option, ◌==◌, if_either, ℕ, ◌+◌, ◌≡◌, ◌⊎◌, ◌∙◌, refl, sym, ap, subst, not, ◌&&◌, if_holds,
  if_fails, String, true, false, none, some, arith, inl, inr, get_elem?, set, get_elem?-set_self,
  Option-cases, Bool-cases,
}
use go_rabbitmq.PendingMap.{load_by_delivery_tag}
use go_rabbitmq.Base.Eq.{String_eq}
use go_rabbitmq.Publisher.State.{PendingMessage, PublisherConfig, ConfirmGeneration, Publisher}
use go_rabbitmq.Publisher.Handlers.{Locked, send_returned, settle_orphan, timeout_locked}
use go_rabbitmq.Publisher.Effects.{on_loaded, locked_at, handle_timeout}
use go_rabbitmq.Publisher.Track.{
  sent, at_heap, send_done, finish_publish, after_send, resynchronise, with_current, next_tag,
  with_tag, rekey_pending, was_decided,
}
use go_rabbitmq.Publisher.Books.{hits, fired_at}
use go_rabbitmq.Publisher.Books.Effects.{locked_at_self, fired_at_of}
use go_rabbitmq.Publisher.Settles.{goes, to_ℕ}
use go_rabbitmq.Publisher.Publish.{send_done_at}

with_current_frame :
    (f : ConfirmGeneration → ConfirmGeneration) (s : Publisher)
    → let t = with_current f s in
      (t.heap ≡ s.heap) × (t.tasks ≡ s.tasks) × (t.pending_messages ≡ s.pending_messages)
with_current_frame f s = elim (Option-cases (get_elem? s.generations s.confirm_gen)) [
  | inl e ↦ rw (e, with_current) (refl, refl, refl)
  | inr (gen, e) ↦ rw (e, with_current) (refl, refl, refl)
]

after_send_frame :
    (p : ℕ) (m : PendingMessage) (s : Publisher)
    → get_elem? s.heap p ≡ some m
    → let t = after_send p m s in
      (get_elem? t.heap p ≡ some (send_returned true m))
      × (t.tasks ≡ s.tasks)
      × (t.pending_messages ≡ s.pending_messages)
after_send_frame p m s e =
    let s' = record s { heap = set s.heap p (send_returned true m); sending = none } in
    let (heap, tasks, map) = with_current_frame next_tag s' in
    (
      ap (λ h. get_elem? h p) heap ∙ get_elem?-set_self s.heap p (send_returned true m) e,
      tasks,
      map,
    )

-- What the two ways of settling after a send do to a message that is not decided.
settles_now :
    (m : PendingMessage) (reason : String)
    → m.callback_fired ≡ false
    → was_decided m ≡ false
    → let r = settle_orphan reason (send_returned true m) in
      (r.0.callback_fired ≡ true) × (goes r.1 ≡ 1)
unfolding settle_orphan send_returned
settles_now m reason h d = ground arith

times_out_now :
    (c : PublisherConfig) (m : PendingMessage) (key : ℕ)
    → m.callback_fired ≡ false
    → let r = timeout_locked c key (send_returned true m) in
      (r.0.callback_fired ≡ true) × (goes r.1 ≡ 1)
unfolding timeout_locked send_returned
times_out_now c m key h = ground arith

-- `t` has decided the message at `p`, which `s` had not, and started one goroutine for it.
abbrev pub Decides : ℕ → Publisher → Publisher → Type 0
Decides p s t = (fired_at p t.heap ≡ 1) × (hits p t.tasks ≡ hits p s.tasks + 1)

section-Decides :
    (f : PendingMessage → Locked) (p : ℕ) (s t : Publisher) (m : PendingMessage)
    → get_elem? t.heap p ≡ some m
    → t.tasks ≡ s.tasks
    → ((f m).0.callback_fired ≡ true) × (goes (f m).1 ≡ 1)
    → Decides p s (locked_at f p t)
section-Decides f p s t m e tasks fires =
    let (self, more) = locked_at_self f p t m e in
    (
      fired_at_of p _ (f m).0 self ∙ ap to_ℕ fires.0,
      ground (arith, more, ap (hits p) tasks, fires.1),
    )

timeout-Decides :
    (p : ℕ) (s t : Publisher) (m : PendingMessage) (key : ℕ)
    → get_elem? t.heap p ≡ some (send_returned true m)
    → t.tasks ≡ s.tasks
    → load_by_delivery_tag key t.pending_messages ≡ some p
    → m.callback_fired ≡ false
    → Decides p s (handle_timeout key t)
unfolding handle_timeout
timeout-Decides p s t m key e tasks loaded undecided =
    subst (λ o. Decides p s (on_loaded o (λ q. locked_at (timeout_locked t.config key) q t) t))
      (sym loaded)
      (section-Decides _ p s t (send_returned true m) e tasks
        (times_out_now t.config m key undecided))

timed_out :
    (m : PendingMessage) (s : Publisher) (p : ℕ)
    → m.orphan_deferred ≡ false
    → (m.orphan_deferred ≡ true)
      ⊎ ((m.timeout_deferred ≡ true) × (load_by_delivery_tag m.key s.pending_messages ≡ some p))
    → (m.timeout_deferred ≡ true) × (load_by_delivery_tag m.key s.pending_messages ≡ some p)
timed_out m s p alive (inl died) = cc
timed_out m s p alive (inr late) = late

at_heap-Decides :
    (p : ℕ) (f : PendingMessage → Publisher) (s t : Publisher)
    → ((m : PendingMessage) → get_elem? t.heap p ≡ some m → Decides p s (f m))
    → Decides p s t
    → Decides p s (at_heap p f t)
at_heap-Decides p f s t at d = elim (Option-cases (get_elem? t.heap p)) [
  | inl e ↦ subst (λ o. Decides p s (elim o [ none ↦ t | some m ↦ f m ])) (sym e) d
  | inr (m, e) ↦ subst (λ o. Decides p s (elim o [ none ↦ t | some m ↦ f m ])) (sym e) (at m e)
]

-- Resynchronising the tag leaves a decided message alone.
rekey-Decides :
    (p generation tag : ℕ) (s t : Publisher)
    → Decides p s t
    → Decides p s (rekey_pending p generation tag t)
unfolding rekey_pending
rekey-Decides p generation tag s t d =
    at_heap-Decides p _ s t
      (λ m e.
        if_holds (Decides p s) m.callback_fired _ _ (ground (arith, d.0, fired_at_of p t.heap m e))
          d)
      d

with_current-Decides :
    (f : ConfirmGeneration → ConfirmGeneration) (p : ℕ) (s t : Publisher)
    → Decides p s t
    → Decides p s (with_current f t)
with_current-Decides f p s t d =
    let (heap, tasks, map) = with_current_frame f t in
    (ap (fired_at p) heap ∙ d.0, ap (hits p) tasks ∙ d.1)

resynchronise-Decides :
    (p : ℕ) (m : PendingMessage) (channel_tag : Option ℕ) (s t : Publisher)
    → Decides p s t
    → Decides p s (resynchronise p m channel_tag t)
unfolding resynchronise
resynchronise-Decides p m none s t d = d
resynchronise-Decides p m (some tag) s t d = if_either (Decides p s) (tag == m.broker_tag) _ _ d (
    with_current-Decides (with_tag tag) p s (rekey_pending p m.generation tag t)
      (rekey-Decides p m.generation tag s t d))

-- What was put off because the send was in flight is not lost. If the confirm channel died meanwhile,
-- or the timeout ran and the message is still in the pending map, and the broker has not answered,
-- then the message is decided as soon as the send has succeeded, with whatever tag the channel used, and
-- one goroutine reports it.
pub deferred_settled :
    (p : ℕ) (m : PendingMessage) (s : Publisher)
    → s.sending ≡ some p
    → get_elem? s.heap p ≡ some m
    → m.callback_fired ≡ false
    → was_decided m ≡ false
    → (m.orphan_deferred ≡ true)
      ⊎ ((m.timeout_deferred ≡ true) × (load_by_delivery_tag m.key s.pending_messages ≡ some p))
    → (channel_tag : Option ℕ) → Decides p s (send_done (sent channel_tag) s)
unfolding finish_publish
deferred_settled p m s h e undecided unanswered put_off channel_tag =
    let (heap, tasks, map) = after_send_frame p m s e in
    subst (Decides p s) (sym (send_done_at p m s (sent channel_tag) h e)) (
      resynchronise-Decides p m channel_tag s _ (elim (Bool-cases m.orphan_deferred) [
        | inl died ↦ if_holds (Decides p s) m.orphan_deferred _ _ died (
            section-Decides _ p s _ _ heap tasks
              (settles_now m m.orphan_reason undecided unanswered))
        | inr alive ↦
            let (late, loaded) = timed_out m s p alive put_off in
            if_fails (Decides p s) m.orphan_deferred _ _ alive (
              if_holds (Decides p s) (m.timeout_deferred && not (was_decided m)) _ _
                (ground (arith, late, unanswered))
                (timeout-Decides p s _ m m.key heap tasks
                  (ap (load_by_delivery_tag m.key) map ∙ loaded) undecided))
      ]))
