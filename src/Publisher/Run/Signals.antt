-- ===== src/Publisher/Run/Signals.antt =====
-- Who is told of a publish attempt, and what the statistics say, on every run of the publisher.
use go_rabbitmq.Base.{
  ℕ, ◌+◌, ◌≤◌, ◌<◌, ◌≡◌, ◌∙◌, refl, sum_by-set, true, false, some, arith, get_elem?, sum_by, ap,
}
use go_rabbitmq.Publisher.State.{PendingMessage, PublisherConfig, Publisher}
use go_rabbitmq.Publisher.Handlers.{send_returned}
use go_rabbitmq.Publisher.Effects.{on_loaded}
use go_rabbitmq.Publisher.Track.{send_failed, send_done, at_heap, done_at, undo_publish}
use go_rabbitmq.Publisher.Books.{hits, claims, fired_at, decided, undecided, Books}
use go_rabbitmq.Publisher.Books.Effects.{fired_at_of}
use go_rabbitmq.Publisher.Books.Sends.{SendUndecided}
use go_rabbitmq.Publisher.Run.{init_delivery_assurance, Reach, init-Books, Reach-Books}

-- Whatever order the confirm and return readers, timers, goroutines and publishes run in, on a run on which
-- a send fails only while its message is not decided: the signals given for an attempt and the
-- goroutines about to give one are together one if the attempt is decided and none if it is not. So no
-- attempt is reported twice.
pub signals_once :
    (c : PublisherConfig) {s : Publisher}
    → Reach SendUndecided (init_delivery_assurance c) s
    → (q : ℕ) → (claims q s ≡ fired_at q s.heap) × (hits q s.signals ≤ 1)
signals_once c {s} r q =
    let b = Reach-Books _ (init-Books c) r in (b.claimed q, ground (arith, b.claimed q))

-- On a run of publishes, handlers, timers and goroutines in any order, on which a send fails only while
-- its message is not decided, the published total is the sum of the five outcome counters and of the
-- attempts that are still undecided.
pub stats_add_up :
    (c : PublisherConfig) {s : Publisher}
    → Reach SendUndecided (init_delivery_assurance c) s
    → s.stats.total_published ≡ decided s.stats + sum_by undecided s.heap
stats_add_up c r = (Reach-Books _ (init-Books c) r).counted

failed_at :
    (p : ℕ) (m : PendingMessage) (s : Publisher)
    → s.sending ≡ some p
    → get_elem? s.heap p ≡ some m
    → send_done send_failed s ≡ undo_publish p m s
unfolding send_done
failed_at p m s h e =
    ap (λ o. on_loaded o (λ q. at_heap q (done_at send_failed q s) s) s) h ∙ rw (e, at_heap) refl

-- A message that was decided while its send was in flight, by a return that names its message ID, and
-- whose send then fails, is reported twice: the publish call returns an error and a goroutine
-- reports the outcome. The published total falls below the outcomes counted.
pub returned_then_failed :
    (p : ℕ) (m : PendingMessage) (s : Publisher)
    → Books s
    → s.sending ≡ some p
    → get_elem? s.heap p ≡ some m
    → m.callback_fired ≡ true
    → 0 < s.stats.total_published
    → let t = send_done send_failed s in
      (claims p t ≡ 2) × (t.stats.total_published + 1 ≡ decided t.stats + sum_by undecided t.heap)
unfolding undo_publish send_returned
returned_then_failed p m s b h e fired pos = rw (failed_at p m s h e) (
  ground (arith, b.claimed p, fired_at_of p s.heap m e),
  ground (arith, b.counted, sum_by-set undecided s.heap p (send_returned false m) e),
)
