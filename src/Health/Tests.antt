-- ===== src/Health/Tests.antt =====
-- Health verdicts at concrete inputs.
use go_rabbitmq.Base.{◌+◌, ◌*◌, ◌≡◌, ◌≤◌, refl, arith, true, false, []}
use go_rabbitmq.Base.Int.{pos}
use go_rabbitmq.Health.State.{health_stalled, ClientState, second}
use go_rabbitmq.Health.Guards.{IsTrusted, connection_trusted, latest_of, gave_up_verdict}
use go_rabbitmq.Health.Subscriptions.{
  ConsumerState, begin, subscribed, closed, failed, any_active_locked, refresh_since_locked,
}
use go_rabbitmq.Health.Consumer.{
  ConsumerPolicy, count_sub, health, consumer_stall_after, consumer_min_age, assess_consumer,
}
use go_rabbitmq.Health.Clock.{Reach, began, subscribes, closes, fails, stalled_truthful}
use go_rabbitmq.Health.Publisher.{
  DeliveryHealth, DeliveryPolicy, looks_stalled, assess_publisher, IsSilent, stalled-IsSilent,
}

abbrev client : ClientState
client = record {
  connected = true;
  reconnecting = false;
  connected_at = 10 * second;
  blocked = false;
  unblocked_at = 0;
  gave_up = false;
}

abbrev unused : ConsumerState
unused = record {
  queue = "";
  begun = false;
  stopped = false;
  subs = [];
  last_err = "";
  last_err_t = 0;
  since = 0;
  sub_at = 0;
  last_delivery = 0;
  last_ack = 0;
  in_flight = 0;
}

-- Subscribed, closed under the consumer, and failing since.
abbrev failing : ConsumerState
failing =
    failed (22 * second) 0 "refused" 320
      (closed (20 * second) 0 (subscribed (12 * second) 0 1 (begin (11 * second) "orders" unused)))

failing_run : Reach failing (22 * second) (20 * second)
unfolding any_active_locked begin subscribed closed failed refresh_since_locked
failing_run =
    fails (22 * second) 0 "refused" 320
      (closes (20 * second) 0
        (subscribes (12 * second) 0 1 (began (11 * second) "orders" unused (omega arith))
          (omega arith))
        (omega arith))
      (omega arith)

abbrev defaults : ConsumerPolicy
defaults = record { stall_after = pos 0; min_connection_age = pos 0 }

is_stalled :
    assess_consumer (health (λ ch. true) true failing) client defaults (400 * second)
    ≡ health_stalled
unfolding assess_consumer health count_sub begin subscribed closed failed refresh_since_locked
    any_active_locked connection_trusted latest_of gave_up_verdict
is_stalled = refl

stalled_truthful_example :
    (any_active_locked failing ≡ false)
    × (20 * second + consumer_stall_after defaults ≤ 400 * second)
    × (client.connected_at + consumer_stall_after defaults ≤ 400 * second)
    × IsTrusted client (consumer_min_age defaults) (400 * second)
stalled_truthful_example =
    stalled_truthful (λ ch. true) true client defaults (400 * second) failing_run is_stalled

abbrev silent : DeliveryHealth
silent = record {
  enabled = true;
  generation_alive = true;
  readers_running = true;
  generation_since = 10 * second;
  started_at = 5 * second;
  oldest_pending_age = 0;
  confirm_timeout = 30 * second;
  last_publish_at = 399 * second;
  last_confirm_at = 20 * second;
  failures_since_confirm = 4;
  total_timed_out = 4;
  total_orphaned = 0;
}

abbrev delivery_defaults : DeliveryPolicy
delivery_defaults = record { stall_after = pos 0; min_connection_age = pos 0; min_failures = pos 0 }

is_silent : assess_publisher silent silent client delivery_defaults (400 * second) ≡ health_stalled
unfolding assess_publisher looks_stalled connection_trusted latest_of gave_up_verdict
is_silent = refl

stalled-IsSilent_example : IsSilent silent client delivery_defaults (400 * second)
stalled-IsSilent_example =
    stalled-IsSilent silent silent client delivery_defaults (400 * second) is_silent
