-- ===== src/Publisher/Track.antt =====
-- publisher.go: `publishTracked` in its two halves, before and after the send on the wire, with
-- `rekeyPending`, the confirm channel's replacement, and the goroutines that handlers start. Between
-- the halves any handler may run: the publisher holds `publishMu`, which no handler takes.
use go_rabbitmq.Base.{
  ℕ, ◌+◌, ◌-◌, Bool, true, false, not, ◌&&◌, ◌||◌, Option, none, some, [], ◌∷◌, ◌++◌, ltb, ◌==◌,
  if◌then◌else◌, length, get_elem?, set,
}
use go_rabbitmq.Message.{nacked}
use go_rabbitmq.PendingMap.{store, delete_pending, count}
use go_rabbitmq.Publisher.State.{
  nacked_after_retries, armed_timeout, PendingMessage, ConfirmGeneration, Task, finish_async,
  retry_message, called, send_error, republished, Publisher,
}
use go_rabbitmq.Publisher.Handlers.{settle_orphan, send_returned}
use go_rabbitmq.Publisher.Effects.{delivery_key, locked_at, on_loaded, handle_timeout}

pub data PublishError : Type 0 where
  publisher_closed channel_error context_error duplicate_message_id : PublishError

pub data Registered : Type 0 where
  registered : Registered
  refused : PublishError → Registered

-- The entry of a new attempt, with the key of its generation and tag and its timeout running.
unfoldable pub tracked : ConfirmGeneration → ℕ → PendingMessage → PendingMessage
tracked gen timeout m =
    let key = delivery_key gen.id (gen.published + 1) in
    record m {
      key = key;
      broker_tag = gen.published + 1;
      generation = gen.id;
      in_flight = true;
      timeout_timer = armed_timeout key;
    }

abbrev pub set_pending_count : Publisher → Publisher
set_pending_count s = record s {
  stats = record s.stats { pending_messages = count s.pending_messages };
}

-- After `Store`: the entry is on the heap, and the message counts as published.
unfoldable pub add_tracked : PendingMessage → Publisher → Publisher
unfolding store
add_tracked m s = set_pending_count (record s {
  heap = s.heap ++ m ∷ [];
  pending_messages = (store m.message_id m.key (length s.heap) s.pending_messages).0;
  stats = record s.stats { total_published = s.stats.total_published + 1 };
  sending = some (length s.heap);
})

-- The checks in order; `ctx_error` is the state of the caller's context.
unfoldable pub register_on :
    ConfirmGeneration → Bool → ℕ → PendingMessage → Publisher → Publisher × Registered
register_on gen ctx_error timeout m s =
    if gen.ch_closed
    then (s, refused channel_error)
    else if ctx_error
    then (s, refused context_error)
    else if gen.dead
    then (s, refused channel_error)
    else let entry = tracked gen timeout m in
      if (store entry.message_id entry.key (length s.heap) s.pending_messages).1
      then (add_tracked entry s, registered)
      else (s, refused duplicate_message_id)

-- `publishTracked` up to the send.
unfoldable pub register : Bool → ℕ → PendingMessage → Publisher → Publisher × Registered
register ctx_error timeout m s =
    if s.closed
    then (s, refused publisher_closed)
    else elim (get_elem? s.generations s.confirm_gen) [
      | none ↦ (s, refused channel_error)
      | some gen ↦ register_on gen ctx_error timeout m s
    ]

-- What the send reported: an error, or the tag that the channel used, if it gave one.
pub data SendResult : Type 0 where
  send_failed : SendResult
  sent : Option ℕ → SendResult

-- The branch of `publishTracked` for a send that failed.
unfoldable pub undo_publish : ℕ → PendingMessage → Publisher → Publisher
undo_publish p m s = set_pending_count (record s {
  heap = set s.heap p (send_returned false m);
  pending_messages = delete_pending m.message_id m.key s.pending_messages;
  stats = record s.stats { total_published = s.stats.total_published - 1 };
  signals = (p, send_error) ∷ s.signals;
  sending = none;
})

abbrev pub with_current : (ConfirmGeneration → ConfirmGeneration) → Publisher → Publisher
with_current f s = elim (get_elem? s.generations s.confirm_gen) [
  | none ↦ s
  | some gen ↦ record s { generations = set s.generations s.confirm_gen (f gen) }
]

abbrev pub next_tag : ConfirmGeneration → ConfirmGeneration
next_tag gen = record gen { published = gen.published + 1 }

abbrev pub with_tag : ℕ → ConfirmGeneration → ConfirmGeneration
with_tag tag gen = record gen { published = tag }

-- The state in which the send has been counted and its message is no longer in flight.
abbrev pub after_send : ℕ → PendingMessage → Publisher → Publisher
after_send p m s =
    with_current next_tag (record s { heap = set s.heap p (send_returned true m); sending = none })

-- `rekeyPending` on the message at an address.
unfoldable pub rekey_pending : ℕ → ℕ → ℕ → Publisher → Publisher
unfolding store delete_pending
rekey_pending p generation tag s = elim (get_elem? s.heap p) [
  | none ↦ s
  | some m ↦
      if m.callback_fired
      then s
      else let new_key = delivery_key generation tag in
        record s {
          heap =
              set s.heap p (record m {
                key = new_key;
                broker_tag = tag;
                timeout_timer = armed_timeout new_key;
              });
          pending_messages =
              (store m.message_id new_key p
                (delete_pending m.message_id m.key s.pending_messages)).0;
        }
]

-- The tag that the channel used differs from the one allocated.
unfoldable pub resynchronise : ℕ → PendingMessage → Option ℕ → Publisher → Publisher
unfolding rekey_pending
resynchronise p m none s = s
resynchronise p m (some channel_tag) s =
    if channel_tag == m.broker_tag
    then s
    else with_current (with_tag channel_tag) (rekey_pending p m.generation channel_tag s)

abbrev pub was_decided : PendingMessage → Bool
was_decided m = m.confirmed || m.was_nacked || m.returned

-- The branch of `publishTracked` for a send that went through: what was put off while it was in
-- flight is done now.
unfoldable pub finish_publish : ℕ → PendingMessage → Option ℕ → Publisher → Publisher
unfolding resynchronise
finish_publish p m channel_tag s =
    let s' = after_send p m s in
    resynchronise p m channel_tag (
      if m.orphan_deferred
      then locked_at (settle_orphan m.orphan_reason) p s'
      else if m.timeout_deferred && not (was_decided m)
      then handle_timeout m.key s'
      else s')

abbrev pub at_heap : ℕ → (PendingMessage → Publisher) → Publisher → Publisher
at_heap p f s = elim (get_elem? s.heap p) [ none ↦ s | some m ↦ f m ]

abbrev pub done_at : SendResult → ℕ → Publisher → PendingMessage → Publisher
done_at send_failed p s m = undo_publish p m s
done_at (sent channel_tag) p s m = finish_publish p m channel_tag s

-- `publishTracked` from the send's return on.
unfoldable pub send_done : SendResult → Publisher → Publisher
send_done result s = on_loaded s.sending (λ p. at_heap p (done_at result p s) s) s

-- `installConfirmGenerationLocked`: the new channel is current, its tags start at 1, and the streak
-- of failures is forgotten.
unfoldable pub install_confirm_generation : Publisher → Publisher
install_confirm_generation s = record s {
  generations =
      s.generations
      ++ record { id = length s.generations + 1; ch_closed = false; published = 0; dead = false }
        ∷ [];
  confirm_gen = length s.generations;
  failures_since_response = 0;
}

-- `retryMessage` counts the attempt and removes the entry.
abbrev pub counted_retry : PendingMessage → PendingMessage
counted_retry m = record m { retry_count = m.retry_count + 1 }

abbrev pub without_entry : ℕ → PendingMessage → Publisher → Publisher
without_entry p m s = record s {
  heap = set s.heap p (counted_retry m);
  pending_messages = delete_pending m.message_id m.key s.pending_messages;
}

-- Its end when the attempts are exhausted: the final callback.
unfoldable pub give_up_retry : ℕ → PendingMessage → Publisher → Publisher
give_up_retry p m s =
    let signal = called m.callback m.message_id nacked (nacked_after_retries (m.retry_count + 1)) in
    set_pending_count (record (without_entry p m s) { signals = (p, signal) ∷ s.signals })

-- Its end otherwise: after the delay the message is published again, as a new attempt.
unfoldable pub republish : ℕ → PendingMessage → Publisher → Publisher
republish p m s =
    let signal = republished m.original_message m.retry_options (m.retry_count + 1) in
    record (without_entry p m s) { signals = (p, signal) ∷ s.signals }

unfoldable pub run_retry : ℕ → PendingMessage → Publisher → Publisher
run_retry p m s =
    if ltb s.config.max_retry_attempts (m.retry_count + 1)
    then give_up_retry p m s
    else republish p m s

-- The body of a goroutine that a handler started: `finishAsync`, or `retryMessage` up to its publish.
unfoldable pub run_task : ℕ → Task → Publisher → Publisher
run_task p (finish_async message_id key callback outcome error) s = set_pending_count (record s {
  pending_messages = delete_pending message_id key s.pending_messages;
  signals = (p, called callback message_id outcome error) ∷ s.signals;
})
run_task p retry_message s = at_heap p (λ m. run_retry p m s) s
