-- ===== src/Publisher/Tests.antt =====
-- Runs of delivery assurance, and its theorems at concrete inputs.
use go_rabbitmq.Base.{
  [], ℕ, ◌+◌, ◌≡◌, ◌≤◌, inr, refl, arith, true, false, none, some, get_elem?, sum_by,
}
use go_rabbitmq.Message.{success}
use go_rabbitmq.PendingMap.{
  store, load_by_message_id, load_by_delivery_tag, new_sharded_pending_map, delete_pending, count,
}
use go_rabbitmq.PendingMap.Fnv.{fnv32a, bytes}
use go_rabbitmq.Publisher.State.{
  no_error, finish_async, unset, PendingMessage, PublisherConfig, ConfirmGeneration, Publisher,
}
use go_rabbitmq.Publisher.Handlers.{
  attempt, confirmation_locked, return_locked, timeout_locked, send_returned, try_finalize_message,
  should_retry, conclude,
}
use go_rabbitmq.Publisher.Effects.{
  delivery_key, locked_at, note_response, handle_confirmation, handle_return, handle_timeout,
}
use go_rabbitmq.Publisher.Track.{
  tracked, add_tracked, register_on, registered, register, send_failed, sent, send_done,
  finish_publish, resynchronise, was_decided, install_confirm_generation, run_task,
}
use go_rabbitmq.Publisher.Books.{hits, claims, fired_at, decided, undecided}
use go_rabbitmq.Publisher.Books.Sends.{SendUndecided}
use go_rabbitmq.Publisher.Run.{
  init_delivery_assurance, registers, send_succeeds, confirms, returns, Reach, here, next,
  init-Books, Reach-Books,
}
use go_rabbitmq.Publisher.Run.Signals.{signals_once, stats_add_up, returned_then_failed}
use go_rabbitmq.Publisher.Publish.{delivery_key-injective, IsUndone, failed_publish-IsUndone}
use go_rabbitmq.Publisher.Deferred.{Decides, deferred_settled}

abbrev config : PublisherConfig
config = record {
  default_exchange = "events";
  default_delivery_callback = none;
  delivery_timeout = 30;
  default_mandatory = false;
  enable_automatic_retries = false;
  max_retry_attempts = 0;
}

abbrev pub_message : PendingMessage
pub_message = record {
  message_id = "m1";
  callback = some 5;
  timeout_timer = unset;
  key = 0;
  broker_tag = 0;
  generation = 0;
  timeout = 30;
  in_flight = false;
  orphan_deferred = false;
  orphan_reason = "";
  timeout_deferred = false;
  exchange = "events";
  routing_key = "order.created";
  mandatory = false;
  original_message = none;
  original_context = none;
  retry_count = 0;
  retry_options = record { message_id = "m1"; mandatory = false; callback = some 5; timeout = 30 };
  confirmed = false;
  returned = false;
  return_reason = no_error;
  was_nacked = false;
  callback_fired = false;
  final_outcome = none;
  final_error = no_error;
}

abbrev started : Publisher
started = init_delivery_assurance config

abbrev in_progress : Publisher
in_progress = (register false 30 (attempt pub_message) started).0

abbrev on_the_wire : Publisher
on_the_wire = send_done (sent (some 1)) in_progress

abbrev acknowledged : Publisher
acknowledged = handle_confirmation 1 1 true on_the_wire

-- The message that one run leaves on the heap.
abbrev first_entry : Publisher → PendingMessage
first_entry s = elim (get_elem? s.heap 0) [ none ↦ pub_message | some m ↦ m ]

acknowledged_run : Reach SendUndecided started acknowledged
unfolding init_delivery_assurance install_confirm_generation
acknowledged_run =
    next (next (next here (registers false 30 pub_message refl)) (send_succeeds (some 1)))
      (confirms 1 1 true)

signals_once_example :
    (claims 0 acknowledged ≡ fired_at 0 acknowledged.heap) × (hits 0 acknowledged.signals ≤ 1)
signals_once_example = signals_once config acknowledged_run 0

stats_add_up_example :
    acknowledged.stats.total_published
    ≡ decided acknowledged.stats + sum_by undecided acknowledged.heap
stats_add_up_example = stats_add_up config acknowledged_run

acknowledged_entry : get_elem? acknowledged.heap 0 ≡ some (first_entry acknowledged)
unfolding init_delivery_assurance install_confirm_generation register register_on tracked
    add_tracked attempt store send_done finish_publish resynchronise send_returned
    handle_confirmation locked_at confirmation_locked try_finalize_message conclude should_retry
    load_by_delivery_tag delivery_key note_response fnv32a bytes new_sharded_pending_map count
    delete_pending load_by_message_id
acknowledged_entry = refl

-- The goroutine that reports the confirm has run.
abbrev reported : Publisher
reported =
    run_task 0 (finish_async "m1" (delivery_key 1 1) (some 5) success no_error)
      (record acknowledged { tasks = [] })

abbrev last_generation : ℕ
last_generation = 16777215

abbrev last_tag : ℕ
last_tag = 1099511627775

-- The largest key.
delivery_key-injective_example : (last_generation ≡ last_generation) × (last_tag ≡ last_tag)
delivery_key-injective_example =
    delivery_key-injective last_generation last_generation last_tag last_tag (omega arith)
      (omega arith) (omega arith) (omega arith) refl

abbrev first_generation : ConfirmGeneration
first_generation = record { id = 1; ch_closed = false; published = 0; dead = false }

first_is_current : get_elem? started.generations started.confirm_gen ≡ some first_generation
unfolding init_delivery_assurance install_confirm_generation
first_is_current = refl

key_is_free :
    load_by_delivery_tag
      (delivery_key first_generation.id (first_generation.published + 1))
      started.pending_messages
    ≡ none
unfolding init_delivery_assurance install_confirm_generation load_by_delivery_tag
    new_sharded_pending_map
key_is_free = refl

is_registered : register false 30 (attempt pub_message) started ≡ (in_progress, registered)
unfolding init_delivery_assurance install_confirm_generation register register_on tracked
    add_tracked attempt store delivery_key fnv32a bytes new_sharded_pending_map
is_registered = refl

failed_publish-IsUndone_example : IsUndone started (send_done send_failed in_progress)
failed_publish-IsUndone_example =
    failed_publish-IsUndone false 30 (attempt pub_message) started in_progress first_generation
      first_is_current key_is_free is_registered

-- The timeout runs while the send is blocked.
abbrev blocked : Publisher
blocked = handle_timeout (delivery_key 1 1) in_progress

blocked_entry :
    (blocked.sending ≡ some 0)
    × (get_elem? blocked.heap 0 ≡ some (first_entry blocked))
    × ((first_entry blocked).callback_fired ≡ false)
    × (was_decided (first_entry blocked) ≡ false)
    × ((first_entry blocked).timeout_deferred ≡ true)
    × (load_by_delivery_tag (first_entry blocked).key blocked.pending_messages ≡ some 0)
unfolding init_delivery_assurance install_confirm_generation register register_on tracked
    add_tracked attempt store load_by_delivery_tag delivery_key fnv32a bytes new_sharded_pending_map
    handle_timeout locked_at timeout_locked
blocked_entry = (refl, refl, refl, refl, refl, refl)

deferred_settled_example : Decides 0 blocked (send_done (sent (some 1)) blocked)
deferred_settled_example =
    deferred_settled 0 (first_entry blocked) blocked blocked_entry.0 blocked_entry.1 blocked_entry.2
      blocked_entry.3 (inr (blocked_entry.4, blocked_entry.5)) (some 1)

-- A return by the message's ID, while the send is in progress.
abbrev returned_early : Publisher
returned_early = handle_return "m1" "NO_ROUTE" 312 in_progress

returned_run : Reach SendUndecided started returned_early
unfolding init_delivery_assurance install_confirm_generation
returned_run = next (next here (registers false 30 pub_message refl)) (returns "m1" "NO_ROUTE" 312)

returned_entry :
    (returned_early.sending ≡ some 0)
    × (get_elem? returned_early.heap 0 ≡ some (first_entry returned_early))
    × ((first_entry returned_early).callback_fired ≡ true)
    × (returned_early.stats.total_published ≡ 1)
unfolding init_delivery_assurance install_confirm_generation register register_on tracked
    add_tracked attempt store load_by_message_id delivery_key fnv32a bytes new_sharded_pending_map
    handle_return locked_at return_locked try_finalize_message conclude should_retry note_response
returned_entry = (refl, refl, refl, refl)

returned_then_failed_example :
    let t = send_done send_failed returned_early in
    (claims 0 t ≡ 2) × (t.stats.total_published + 1 ≡ decided t.stats + sum_by undecided t.heap)
returned_then_failed_example =
    returned_then_failed 0 (first_entry returned_early) returned_early
      (Reach-Books started (init-Books config) returned_run) returned_entry.0 returned_entry.1
      returned_entry.2 (let one = returned_entry.3 in omega arith)
