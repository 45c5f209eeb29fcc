-- ===== src/Health/Consumer/Assess.antt =====
-- consumer_health.go: a stalled verdict means that nothing was consumed for the whole window.
use go_rabbitmq.Base.{
  ℕ, ◌+◌, ◌≤◌, ◌≡◌, Bool, true, false, List, [], ◌∷◌, if◌then◌else◌, arith, refl,
}
use go_rabbitmq.Health.State.{health_stalled, ClientState}
use go_rabbitmq.Health.Guards.{
  connection_trusted-IsTrusted, IsTrusted, latest_of-All, gave_up_verdict,
}
use go_rabbitmq.Health.Subscriptions.{
  SubscriptionState, ConsumerState, some_active, any_active_locked,
}
use go_rabbitmq.Health.Consumer.{
  ConsumerHealth, ConsumerPolicy, count_sub, count_subs, health, subscribe_refusal,
  consumer_stall_after, consumer_min_age, assess_consumer, before_loop,
}

count_subs-consuming :
    (is_closed : ℕ → Bool) (subs : List (ℕ × SubscriptionState)) (out : ConsumerHealth) (t : ℕ)
    → (count_subs is_closed subs (out, t)).0.consuming
      ≡ (if out.consuming then true else some_active subs)
unfolding count_sub
count_subs-consuming is_closed [] out t = ground arith
count_subs-consuming is_closed ((i, s) ∷ subs) out t =
    let next = count_sub is_closed s (out, t) in
    let rest = count_subs-consuming is_closed subs next.0 next.1 in ground arith

pub health-consuming :
    (is_closed : ℕ → Bool) (connected : Bool) (h : ConsumerState)
    → (health is_closed connected h).consuming ≡ any_active_locked h
unfolding health any_active_locked
health-consuming is_closed connected h = count_subs-consuming is_closed h.subs _ 0

count_subs-not_consuming_since :
    (is_closed : ℕ → Bool) (subs : List (ℕ × SubscriptionState)) (out : ConsumerHealth) (t : ℕ)
    → (count_subs is_closed subs (out, t)).0.not_consuming_since ≡ out.not_consuming_since
unfolding count_sub
count_subs-not_consuming_since is_closed [] out t = refl
count_subs-not_consuming_since is_closed ((i, s) ∷ subs) out t =
    let next = count_sub is_closed s (out, t) in
    count_subs-not_consuming_since is_closed subs next.0 next.1

pub health-not_consuming_since :
    (is_closed : ℕ → Bool) (connected : Bool) (h : ConsumerState)
    → (health is_closed connected h).not_consuming_since ≡ h.since
unfolding health
health-not_consuming_since is_closed connected h =
    count_subs-not_consuming_since is_closed h.subs (before_loop connected h) 0

-- All that a stalled verdict asks for.
pub record IsWedged (h : ConsumerHealth) (cs : ClientState) (pol : ConsumerPolicy) (now : ℕ)
    : Type 0 where
  pub trusted : IsTrusted cs (consumer_min_age pol) now
  pub not_stopped : h.stopped ≡ false
  pub idle : h.consuming ≡ false
  pub accepted : subscribe_refusal h.last_subscribe_error_code ≡ false
  pub since : h.not_consuming_since + consumer_stall_after pol ≤ now
  pub fresh : cs.connected_at + consumer_stall_after pol ≤ now

pub stalled-IsWedged :
    (h : ConsumerHealth) (cs : ClientState) (pol : ConsumerPolicy) (now : ℕ)
    → assess_consumer h cs pol now ≡ health_stalled
    → IsWedged h cs pol now
unfolding assess_consumer gave_up_verdict
stalled-IsWedged h cs pol now e =
    let times = latest_of-All (h.not_consuming_since ∷ cs.connected_at ∷ []) in
    record {
      trusted =
          connection_trusted-IsTrusted cs (consumer_min_age pol) now (ground arith) (ground arith);
      not_stopped = ground arith;
      idle = ground arith;
      accepted = ground arith;
      since = ground arith;
      fresh = ground arith;
    }
