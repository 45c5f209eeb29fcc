-- ===== src/Health/Consumer.antt =====
-- consumer_health.go: the consumer's snapshot and its verdict.
use go_rabbitmq.Base.{
  ℕ, zero, suc, ◌+◌, ◌-◌, ◌*◌, ◌≤◌, ◌≡◌, String, Bool, true, false, Option, none, some, List, [],
  ◌∷◌, if◌then◌else◌, ltb, leb, ◌==◌, not, ◌||◌, ◌&&◌,
}
use go_rabbitmq.Base.Int.{ℤ, pos, negsuc, ltb_ℤ, pos_part}
use go_rabbitmq.Health.State.{
  HealthLevel, health_ok, health_degraded, health_stalled, ClientState, is_zero, second,
}
use go_rabbitmq.Health.Guards.{
  connection_trusted, latest_of, gave_up_verdict, default_min_connection_age,
}
use go_rabbitmq.Health.Subscriptions.{SubscriptionState, ConsumerState}
pub mod Assess

pub record ConsumerHealth : Type 0 where
  pub queue : String
  pub consuming : Bool
  pub channel_open : Bool
  pub connection_open : Bool
  pub cancelled_by_broker : Bool
  pub stopped : Bool
  pub subscribed_at : ℕ
  pub not_consuming_since : ℕ
  pub last_delivery_at : ℕ
  pub last_ack_at : ℕ
  pub in_flight : ℕ
  pub resubscribe_failures : ℕ
  pub failing_subscriptions : ℕ
  pub active_subscriptions : ℕ
  pub last_error : String
  pub last_error_at : ℕ
  pub last_subscribe_error_code : ℕ

abbrev pub consumer_resubscribe_failure_limit : ℕ
consumer_resubscribe_failure_limit = 5

abbrev pub is_open : (ℕ → Bool) → Option ℕ → Bool
is_open is_closed none = false
is_open is_closed (some ch) = not (is_closed ch)

-- One turn of the loop over the subscriptions; the time is `codeAt`.
unfoldable pub count_sub : (ℕ → Bool) → SubscriptionState → ConsumerHealth × ℕ → ConsumerHealth × ℕ
count_sub is_closed s (out, code_at) =
    let newer = if is_zero s.err_at then false else leb code_at s.err_at in
    let code = if newer then s.err_code else out.last_subscribe_error_code in
    let most =
      if ltb out.resubscribe_failures s.failures then s.failures else out.resubscribe_failures in
    let failing =
      if leb consumer_resubscribe_failure_limit s.failures
      then out.failing_subscriptions + 1
      else out.failing_subscriptions in
    let live = if s.active then out.active_subscriptions + 1 else out.active_subscriptions in
    let opened =
      if s.active
      then (if is_open is_closed s.ch then true else out.channel_open)
      else out.channel_open in
    (
      record out {
        last_subscribe_error_code = code;
        resubscribe_failures = most;
        failing_subscriptions = failing;
        consuming = if s.active then true else out.consuming;
        active_subscriptions = live;
        channel_open = opened;
        cancelled_by_broker = if s.cancelled then true else out.cancelled_by_broker;
      },
      if newer then s.err_at else code_at,
    )

abbrev pub count_subs :
    (ℕ → Bool) → List (ℕ × SubscriptionState) → ConsumerHealth × ℕ → ConsumerHealth × ℕ
count_subs is_closed [] out = out
count_subs is_closed ((i, s) ∷ subs) out = count_subs is_closed subs (count_sub is_closed s out)

-- What `Health` fills in before its loop.
abbrev pub before_loop : Bool → ConsumerState → ConsumerHealth
before_loop connected h = record {
  queue = h.queue;
  consuming = false;
  channel_open = false;
  connection_open = connected;
  cancelled_by_broker = false;
  stopped = h.stopped;
  subscribed_at = h.sub_at;
  not_consuming_since = h.since;
  last_delivery_at = h.last_delivery;
  last_ack_at = h.last_ack;
  in_flight = h.in_flight;
  resubscribe_failures = 0;
  failing_subscriptions = 0;
  active_subscriptions = 0;
  last_error = h.last_err;
  last_error_at = h.last_err_t;
  last_subscribe_error_code = 0;
}

-- `Health`: which channels are closed and whether the client is connected are parameters. Go visits
-- the map of subscriptions in any order; here it is the list's.
unfoldable pub health : (ℕ → Bool) → Bool → ConsumerState → ConsumerHealth
unfolding count_sub
health is_closed connected h = (count_subs is_closed h.subs (before_loop connected h, 0)).0

-- Durations, in nanoseconds.
pub record ConsumerPolicy : Type 0 where
  pub stall_after : ℤ
  pub min_connection_age : ℤ

-- With the defaults, both are positive.
abbrev pub or_default : ℤ → ℕ → ℕ
or_default n d = if ltb_ℤ (pos 0) n then pos_part n else d

-- `ACCESS_REFUSED`, `NOT_FOUND`, `PRECONDITION_FAILED`.
abbrev pub subscribe_refusal : ℕ → Bool
subscribe_refusal code =
    if code == 404 then true else if code == 403 then true else if code == 406 then true else false

abbrev pub consumer_stall_after : ConsumerPolicy → ℕ
consumer_stall_after pol = or_default pol.stall_after (300 * second)

abbrev pub consumer_min_age : ConsumerPolicy → ℕ
consumer_min_age pol = or_default pol.min_connection_age default_min_connection_age

abbrev pub first_verdict : Option HealthLevel → HealthLevel → HealthLevel
first_verdict none l = l
first_verdict (some l) _ = l

-- `Assess`, without its reasons.
unfoldable pub assess_consumer : ConsumerHealth → ClientState → ConsumerPolicy → ℕ → HealthLevel
assess_consumer h cs pol now = first_verdict (gave_up_verdict cs) (
    if h.stopped
    then health_degraded
    else if (if is_zero h.not_consuming_since then not h.consuming else false)
    then health_degraded
    else if h.consuming
    then (if (if h.cancelled_by_broker then true else ltb 0 h.failing_subscriptions)
        then health_degraded
        else health_ok)
    else if subscribe_refusal h.last_subscribe_error_code
    then health_degraded
    else if not (connection_trusted cs (consumer_min_age pol) now)
    then health_degraded
    else if ltb (now - latest_of (h.not_consuming_since ∷ cs.connected_at ∷ []))
        (consumer_stall_after pol)
    then health_degraded
    else health_stalled)
