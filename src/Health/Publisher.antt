-- ===== src/Health/Publisher.antt =====
-- publisher_health.go: the verdict on a publisher's delivery assurance.
use go_rabbitmq.Base.{
  ℕ, ◌+◌, ◌-◌, ◌*◌, ◌%◌, ◌^◌, ◌≤◌, ◌<◌, ◌≡◌, Bool, true, false, [], ◌∷◌, if◌then◌else◌, ltb, leb,
  not, arith,
}
use go_rabbitmq.Base.Int.{ℤ, pos, negsuc}
use go_rabbitmq.Health.State.{
  HealthLevel, health_ok, health_degraded, health_stalled, ClientState, second,
}
use go_rabbitmq.Health.Guards.{
  connection_trusted, connection_trusted-IsTrusted, IsTrusted, latest_of, latest_of-All,
  gave_up_verdict, default_min_connection_age,
}
use go_rabbitmq.Health.Consumer.{or_default, first_verdict}

-- The counts are those of `DeliveryStats`.
pub record DeliveryHealth : Type 0 where
  pub enabled : Bool
  pub generation_alive : Bool
  pub readers_running : Bool
  pub generation_since : ℕ
  pub started_at : ℕ
  pub oldest_pending_age : ℕ
  pub confirm_timeout : ℕ
  pub last_publish_at : ℕ
  pub last_confirm_at : ℕ
  pub failures_since_confirm : ℕ
  pub total_timed_out : ℕ
  pub total_orphaned : ℕ

pub record DeliveryPolicy : Type 0 where
  pub stall_after : ℤ
  pub min_connection_age : ℤ
  pub min_failures : ℤ

-- `3 * confirmTimeout` on 64 bits; what wraps to a negative number is 0 here, and loses against the
-- other operand of `max` in either case.
abbrev pub triple : ℕ → ℕ
triple n = let x = (3 * n) % 2 ^ 64 in if ltb x (2 ^ 63) then x else 0

abbrev pub larger : ℕ → ℕ → ℕ
larger a b = if ltb a b then b else a

abbrev pub delivery_stall_after : DeliveryPolicy → ℕ → ℕ
delivery_stall_after pol confirm_timeout =
    or_default pol.stall_after (larger (triple confirm_timeout) (300 * second))

abbrev pub delivery_min_age : DeliveryPolicy → ℕ
delivery_min_age pol = or_default pol.min_connection_age default_min_connection_age

abbrev pub delivery_min_failures : DeliveryPolicy → ℕ
delivery_min_failures pol = or_default pol.min_failures 3

-- Failing, still publishing, and silent since `ref` for the window.
abbrev pub is_candidate : ℕ → ℕ → ℕ → ℕ → ℕ → ℕ → Bool
is_candidate min_failures failures ref published window now =
    if leb min_failures failures
    then (if (if ltb ref published then ltb (now - published) window else false)
        then leb window (now - ref)
        else false)
    else false

abbrev pub pending_slack : ℕ
pending_slack = 5 * second

-- The start of the silence.
abbrev pub silent_since : DeliveryHealth → ClientState → ℕ
silent_since h cs =
    latest_of (
      h.last_confirm_at ∷ h.generation_since ∷ h.started_at ∷ cs.connected_at ∷ cs.unblocked_at
      ∷ [])

unfoldable pub looks_stalled : DeliveryHealth → ClientState → DeliveryPolicy → ℕ → Bool
looks_stalled h cs pol now =
    is_candidate (delivery_min_failures pol) h.failures_since_confirm (silent_since h cs)
      h.last_publish_at (delivery_stall_after pol h.confirm_timeout) now

-- Something else is wrong; `prev` is the snapshot before.
unfoldable pub looks_degraded : DeliveryHealth → DeliveryHealth → Bool
looks_degraded h prev =
    if not h.generation_alive
    then true
    else if not h.readers_running
    then true
    else if ltb (h.confirm_timeout + pending_slack) h.oldest_pending_age
    then true
    else if prev.enabled
    then ltb (prev.total_timed_out + prev.total_orphaned) (h.total_timed_out + h.total_orphaned)
    else false

-- `Assess`, without its reasons.
unfoldable pub assess_publisher :
    DeliveryHealth → DeliveryHealth → ClientState → DeliveryPolicy → ℕ → HealthLevel
unfolding looks_stalled
assess_publisher h prev cs pol now = first_verdict (gave_up_verdict cs) (
    if not h.enabled
    then health_ok
    else if looks_stalled h cs pol now
    then (if not (connection_trusted cs (delivery_min_age pol) now)
        then health_degraded
        else health_stalled)
    else if looks_degraded h prev
    then health_degraded
    else health_ok)

-- What the documentation of `Assess` lists for a stall.
pub record IsSilent (h : DeliveryHealth) (cs : ClientState) (pol : DeliveryPolicy) (now : ℕ)
    : Type 0 where
  pub enabled : h.enabled ≡ true
  pub trusted : IsTrusted cs (delivery_min_age pol) now
  pub failing : delivery_min_failures pol ≤ h.failures_since_confirm
  pub publishing : now < h.last_publish_at + delivery_stall_after pol h.confirm_timeout
  pub unanswered : h.last_confirm_at < h.last_publish_at
  pub silence : h.last_confirm_at + delivery_stall_after pol h.confirm_timeout ≤ now
  pub generation : h.generation_since + delivery_stall_after pol h.confirm_timeout ≤ now
  pub created : h.started_at + delivery_stall_after pol h.confirm_timeout ≤ now
  pub connection : cs.connected_at + delivery_stall_after pol h.confirm_timeout ≤ now
  pub alarm : cs.unblocked_at + delivery_stall_after pol h.confirm_timeout ≤ now

larger-second : (n : ℕ) → 1 ≤ larger (triple n) (300 * second)
larger-second n = ground arith

positive_default : (n : ℤ) (d : ℕ) → 1 ≤ d → 1 ≤ or_default n d
positive_default (pos n) d h = ground arith
positive_default (negsuc n) d h = ground arith

record IsStall (min_failures failures ref published window now : ℕ) : Type 0 where
  failing : min_failures ≤ failures
  recent : now < published + window
  newer : ref < published
  long : ref + window ≤ now

candidate-IsStall :
    (min_failures failures ref published window now : ℕ)
    → 1 ≤ window
    → is_candidate min_failures failures ref published window now ≡ true
    → IsStall min_failures failures ref published window now
candidate-IsStall min_failures failures ref published window now positive h = record {
  failing = ground arith;
  recent = ground arith;
  newer = ground arith;
  long = ground arith;
}

module _ (h prev : DeliveryHealth) (cs : ClientState) (pol : DeliveryPolicy) (now : ℕ) where
  stalled-candidate :
      assess_publisher h prev cs pol now ≡ health_stalled → looks_stalled h cs pol now ≡ true
  unfolding assess_publisher gave_up_verdict
  stalled-candidate e = ground arith

  stalled-enabled : assess_publisher h prev cs pol now ≡ health_stalled → h.enabled ≡ true
  unfolding assess_publisher gave_up_verdict
  stalled-enabled e = ground arith

  stalled-IsTrusted :
      assess_publisher h prev cs pol now ≡ health_stalled → IsTrusted cs (delivery_min_age pol) now
  unfolding assess_publisher gave_up_verdict
  stalled-IsTrusted e =
      connection_trusted-IsTrusted cs (delivery_min_age pol) now
        (positive_default pol.min_connection_age _ (ground arith)) (ground arith)

-- A publisher is judged stalled only if all that the documentation lists holds: delivery assurance is on,
-- the guard against restart storms holds, enough failures came with no answer since, a publish newer
-- than the last answer lies inside the window, and the silence is as long as the window, measured from
-- each of the last answer, the confirm channel's start, the publisher's, the connection's and the last
-- unblocking.
pub stalled-IsSilent :
    (h prev : DeliveryHealth) (cs : ClientState) (pol : DeliveryPolicy) (now : ℕ)
    → assess_publisher h prev cs pol now ≡ health_stalled
    → IsSilent h cs pol now
unfolding assess_publisher gave_up_verdict looks_stalled
stalled-IsSilent h prev cs pol now e =
    let times = latest_of-All (
      h.last_confirm_at ∷ h.generation_since ∷ h.started_at ∷ cs.connected_at ∷ cs.unblocked_at
      ∷ []) in
    let stall =
      candidate-IsStall (delivery_min_failures pol) h.failures_since_confirm (silent_since h cs)
        h.last_publish_at (delivery_stall_after pol h.confirm_timeout) now
        (positive_default pol.stall_after _ (larger-second h.confirm_timeout))
        (stalled-candidate h prev cs pol now e) in
    let long = stall.long in
    let newer = stall.newer in
    record {
      enabled = stalled-enabled h prev cs pol now e;
      trusted = stalled-IsTrusted h prev cs pol now e;
      failing = stall.failing;
      publishing = stall.recent;
      unanswered = grind (arith, times);
      silence = grind (arith, times);
      generation = grind (arith, times);
      created = grind (arith, times);
      connection = grind (arith, times);
      alarm = grind (arith, times);
    }
