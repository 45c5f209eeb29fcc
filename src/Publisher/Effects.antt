-- ===== src/Publisher/Effects.antt =====
-- publisher.go: the effects of a locked section on the publisher, and the handlers that look a
-- message up and then run its section.
use go_rabbitmq.Base.{
  ℕ, zero, suc, ◌+◌, ◌*◌, ◌%◌, ◌^◌, String, Bool, true, Option, none, some, List, [], ◌∷◌, ◌++◌,
  ◌==◌, if◌then◌else◌, get_elem?, set,
}
use go_rabbitmq.Message.{DeliveryStats}
use go_rabbitmq.PendingMap.{ShardedPendingMap, num_shards, load_by_message_id, load_by_delivery_tag}
use go_rabbitmq.Publisher.State.{
  ErrorText, PendingMessage, Counter, total_confirmed, total_returned, total_nacked,
  total_timed_out, total_orphaned, Effect, bump, note_failure, go, Publisher,
}
use go_rabbitmq.Publisher.Handlers.{
  Locked, confirmation_locked, return_locked, grace_locked, timeout_locked, settle_orphan,
}

-- `deliveryKey` on uint64: the generation above the 40 bits of the tag. The two halves share no bit,
-- so the source's `|` is a sum.
unfoldable pub delivery_key : ℕ → ℕ → ℕ
delivery_key generation tag = generation * 2 ^ 40 % 2 ^ 64 + tag % 2 ^ 40

abbrev pub bump_stats : Counter → DeliveryStats → DeliveryStats
bump_stats total_confirmed t = record t { total_confirmed = t.total_confirmed + 1 }
bump_stats total_returned t = record t { total_returned = t.total_returned + 1 }
bump_stats total_nacked t = record t { total_nacked = t.total_nacked + 1 }
bump_stats total_timed_out t = record t { total_timed_out = t.total_timed_out + 1 }
bump_stats total_orphaned t = record t { total_orphaned = t.total_orphaned + 1 }

-- `noteFailureLocked`: a failure of a superseded generation does not count.
unfoldable pub note_failure_locked : ℕ → ErrorText → Publisher → Publisher
note_failure_locked generation reason s = elim (get_elem? s.generations s.confirm_gen) [
  | none ↦ record s { last_err = reason; failures_since_response = s.failures_since_response + 1 }
  | some gen ↦
      if gen.id == generation
      then record s { last_err = reason; failures_since_response = s.failures_since_response + 1 }
      else record s { last_err = reason }
]

abbrev pub apply_effect : ℕ → Effect → Publisher → Publisher
apply_effect p (bump c) s = record s { stats = bump_stats c s.stats }
apply_effect p (note_failure generation reason) s = note_failure_locked generation reason s
apply_effect p (go t) s = record s { tasks = (p, t) ∷ s.tasks }

abbrev pub apply_effects : ℕ → List Effect → Publisher → Publisher
apply_effects p [] s = s
apply_effects p (e ∷ es) s = apply_effects p es (apply_effect p e s)

-- One locked section on the message at an address.
unfoldable pub locked_at : (PendingMessage → Locked) → ℕ → Publisher → Publisher
locked_at f p s = elim (get_elem? s.heap p) [
  | none ↦ s
  | some m ↦ apply_effects p (f m).1 (record s { heap = set s.heap p (f m).0 })
]

unfoldable pub note_response : Publisher → Publisher
note_response s = record s { failures_since_response = 0 }

abbrev pub on_loaded : Option ℕ → (ℕ → Publisher) → Publisher → Publisher
on_loaded none f s = s
on_loaded (some p) f s = f p

unfoldable pub handle_confirmation : ℕ → ℕ → Bool → Publisher → Publisher
handle_confirmation generation tag ack s =
    let s' = note_response s in
    on_loaded (load_by_delivery_tag (delivery_key generation tag) s'.pending_messages)
      (λ p. locked_at (confirmation_locked s'.config ack) p s') s'

unfoldable pub handle_return : String → String → ℕ → Publisher → Publisher
handle_return message_id reply_text reply_code s =
    let s' = note_response s in
    on_loaded (load_by_message_id message_id s'.pending_messages)
      (λ p. locked_at (return_locked s'.config reply_text reply_code) p s') s'

unfoldable pub handle_mandatory_grace_period_expired : ℕ → Publisher → Publisher
handle_mandatory_grace_period_expired tag s =
    on_loaded (load_by_delivery_tag tag s.pending_messages) (λ p. locked_at (grace_locked tag) p s)
      s

unfoldable pub handle_timeout : ℕ → Publisher → Publisher
handle_timeout tag s =
    on_loaded (load_by_delivery_tag tag s.pending_messages)
      (λ p. locked_at (timeout_locked s.config tag) p s) s

-- The addresses that `Range` visits, shard by shard.
abbrev pub addresses : List (String × ℕ) → List ℕ
addresses [] = []
addresses ((k, p) ∷ m) = p ∷ addresses m

range_below : ℕ → ShardedPendingMap → List ℕ
range_below zero m = []
range_below (suc i) m = range_below i m ++ addresses (m.shards i).by_message_id

unfoldable pub range : ShardedPendingMap → List ℕ
unfolding range_below
range m = range_below num_shards m

abbrev pub of_generation : ℕ → List PendingMessage → List ℕ → List ℕ
of_generation generation heap [] = []
of_generation generation heap (p ∷ ps) =
    let rest = of_generation generation heap ps in
    elim (get_elem? heap p) [
      | none ↦ rest
      | some m ↦ if m.generation == generation then p ∷ rest else rest
    ]

unfoldable pub settle_all : String → List ℕ → Publisher → Publisher
settle_all reason [] s = s
settle_all reason (p ∷ ps) s = settle_all reason ps (locked_at (settle_orphan reason) p s)

abbrev pub mark_dead : ℕ → Publisher → Publisher
mark_dead g s = elim (get_elem? s.generations g) [
  | none ↦ s
  | some gen ↦ record s { generations = set s.generations g (record gen { dead = true }) }
]

abbrev pub generation_id : ℕ → Publisher → ℕ
generation_id g s = elim (get_elem? s.generations g) [ none ↦ 0 | some gen ↦ gen.id ]

-- `failOrphans` for the generation at position `g`, after its queued returns were handled. Close
-- drops the orphans.
unfoldable pub fail_orphans : ℕ → String → Publisher → Publisher
fail_orphans g reason s =
    if s.closed
    then s
    else let s' = mark_dead g s in
      settle_all reason (of_generation (generation_id g s') s'.heap (range s'.pending_messages)) s'
