-- ===== src/Health/Clock.antt =====
-- consumer_health.go: the clock of a consumer that does not consume, over any sequence of operations.
use go_rabbitmq.Base.{
  ℕ, ◌+◌, ◌≤◌, ◌≡◌, String, Bool, true, false, List, [], ◌∷◌, if◌then◌else◌, not, arith, refl,
  if_either,
}
use go_rabbitmq.Health.State.{health_stalled, ClientState}
use go_rabbitmq.Health.Guards.{IsTrusted}
use go_rabbitmq.Health.Subscriptions.{
  SubscriptionState, ConsumerState, on_sub, subscribe_to, ended, channel_closed, sub_failed,
  is_channel, sub_of, looked_up, sub_cancelled, some_active, any_active_locked,
  refresh_since_locked, begin, end, subscribed, closed, cancelled_by_broker, failed, delivered,
}
use go_rabbitmq.Health.Consumer.Assess.{
  stalled-IsWedged, health-consuming, health-not_consuming_since,
}
use go_rabbitmq.Health.Consumer.{
  ConsumerPolicy, health, consumer_stall_after, consumer_min_age, assess_consumer,
}

-- The state after some operations, the time of the last, and the last time by then at which a
-- subscription was live or the consumer began.
pub data Reach : ConsumerState → ℕ → ℕ → Type 0 where
  began :
      (now : ℕ) (queue : String) (h : ConsumerState) → 1 ≤ now → Reach (begin now queue h) now now
  begins_again :
      (now : ℕ) (queue : String) {h : ConsumerState} {t l : ℕ}
      → Reach h t l
      → t ≤ now
      → Reach (begin now queue h) now now
  ends :
      (now : ℕ) (clean : Bool) {h : ConsumerState} {t l : ℕ}
      → Reach h t l
      → t ≤ now
      → Reach (end now clean h) now (if any_active_locked h then now else l)
  subscribes :
      (now id ch : ℕ) {h : ConsumerState} {t l : ℕ}
      → Reach h t l
      → t ≤ now
      → Reach (subscribed now id ch h) now now
  closes :
      (now id : ℕ) {h : ConsumerState} {t l : ℕ}
      → Reach h t l
      → t ≤ now
      → Reach (closed now id h) now (if any_active_locked h then now else l)
  cancels :
      (now id ch : ℕ) {h : ConsumerState} {t l : ℕ}
      → Reach h t l
      → t ≤ now
      → Reach (cancelled_by_broker now id ch h) now (if any_active_locked h then now else l)
  fails :
      (now id : ℕ) (reason : String) (code : ℕ) {h : ConsumerState} {t l : ℕ}
      → Reach h t l
      → t ≤ now
      → Reach (failed now id reason code h) now (if any_active_locked h then now else l)
  delivers :
      (now : ℕ) (auto_ack : Bool) {h : ConsumerState} {t l : ℕ}
      → Reach h t l
      → t ≤ now
      → Reach (delivered now auto_ack h) now (if any_active_locked h then now else l)

-- The clock runs exactly while nothing is live, from the last time that something was.
pub record InStep (h : ConsumerState) (t l : ℕ) : Type 0 where
  pub positive : 1 ≤ l
  pub past : l ≤ t
  pub live : any_active_locked h ≡ true → h.since ≡ 0
  pub dead : any_active_locked h ≡ false → h.since ≡ l

some_active-on_sub :
    (id ch : ℕ) (subs : List (ℕ × SubscriptionState))
    → some_active (on_sub id (subscribe_to ch) subs) ≡ true
some_active-on_sub id ch [] = refl
some_active-on_sub id ch ((i, s) ∷ subs) = let rest = some_active-on_sub id ch subs in ground arith

-- The clock after a refresh, whatever the operation did before it.
refreshed :
    (h g : ConsumerState) (t l now : ℕ)
    → InStep h t l
    → g.since ≡ h.since
    → t ≤ now
    → InStep (refresh_since_locked now g) now (if any_active_locked h then now else l)
unfolding any_active_locked refresh_since_locked
refreshed h g t l now i e le =
    let p = i.positive in
    let q = i.past in
    let live = i.live in
    let dead = i.dead in
    record {
      positive = ground arith;
      past = ground arith;
      live = λ a. ground arith;
      dead = λ a. ground arith;
    }

unrefreshed :
    (h g : ConsumerState) (t l now : ℕ)
    → InStep h t l
    → g.since ≡ h.since
    → any_active_locked g ≡ any_active_locked h
    → t ≤ now
    → InStep g now (if any_active_locked h then now else l)
unrefreshed h g t l now i e same le =
    let p = i.positive in
    let q = i.past in
    let live = i.live in
    let dead = i.dead in
    record {
      positive = ground arith;
      past = ground arith;
      live = λ a. ground arith;
      dead = λ a. ground arith;
    }

began_now :
    (now : ℕ) (queue : String) (h : ConsumerState) → 1 ≤ now → InStep (begin now queue h) now now
unfolding begin any_active_locked
began_now now queue h p = record {
  positive = p;
  past = omega arith;
  live = λ a. ground arith;
  dead = λ a. refl;
}

some_active-on_sub_same :
    (id : ℕ) (subs : List (ℕ × SubscriptionState))
    → some_active (on_sub id (λ s. s) subs) ≡ some_active subs
some_active-on_sub_same id [] = refl
some_active-on_sub_same id ((i, s) ∷ subs) =
    let rest = some_active-on_sub_same id subs in ground arith

pub Reach-InStep : {h : ConsumerState} {t l : ℕ} → Reach h t l → InStep h t l
unfolding end subscribed closed cancelled_by_broker failed delivered any_active_locked
    refresh_since_locked
Reach-InStep (began now queue h p) = began_now now queue h p
Reach-InStep (begins_again now queue {h} {t} {l} r le) =
    let i = Reach-InStep r in
    let p = i.positive in let q = i.past in began_now now queue h (ground arith)
Reach-InStep (ends now clean {h} {t} {l} r le) =
    refreshed h (ended clean h) t l now (Reach-InStep r) refl le
Reach-InStep (subscribes now id ch {h} {t} {l} r le) =
    let i = Reach-InStep r in
    let p = i.positive in
    let q = i.past in
    let active = some_active-on_sub id ch h.subs in
    record {
      positive = ground arith;
      past = omega arith;
      live = λ a. ground arith;
      dead = λ a. ground arith;
    }
Reach-InStep (closes now id {h} {t} {l} r le) =
    refreshed h (channel_closed id h) t l now (Reach-InStep r) refl le
Reach-InStep (cancels now id ch {h} {t} {l} r le) =
    let i = Reach-InStep r in
    if_either (λ g. InStep g now (if any_active_locked h then now else l))
      (not (is_channel (sub_of id h.subs).ch ch)) _ _
      (unrefreshed h (looked_up id h) t l now i refl (some_active-on_sub_same id h.subs) le)
      (refreshed h (sub_cancelled id h) t l now i refl le)
Reach-InStep (fails now id reason code {h} {t} {l} r le) =
    refreshed h (sub_failed now id reason code h) t l now (Reach-InStep r) refl le
Reach-InStep (delivers now auto_ack {h} {t} {l} r le) =
    if_either (λ g. InStep g now (if any_active_locked h then now else l)) auto_ack _ _
      (unrefreshed h _ t l now (Reach-InStep r) refl refl le)
      (unrefreshed h _ t l now (Reach-InStep r) refl refl le)

-- A consumer that has begun and is judged stalled, whatever happened to its subscriptions: no
-- subscription has been live since a time at least the policy's window ago, the connection is at least
-- that old too, and the client is connected, not reconnecting, not blocked and older than the policy's
-- minimum age. In particular a consumer with a live subscription is never stalled, however long ago its
-- last delivery was.
pub stalled_truthful :
    {h : ConsumerState} {t l : ℕ} (is_closed : ℕ → Bool) (connected : Bool) (cs : ClientState)
    (pol : ConsumerPolicy) (now : ℕ)
    → Reach h t l
    → assess_consumer (health is_closed connected h) cs pol now ≡ health_stalled
    → (any_active_locked h ≡ false)
      × (l + consumer_stall_after pol ≤ now)
      × (cs.connected_at + consumer_stall_after pol ≤ now)
      × IsTrusted cs (consumer_min_age pol) now
stalled_truthful {h} {t} {l} is_closed connected cs pol now r e =
    let w = stalled-IsWedged (health is_closed connected h) cs pol now e in
    let i = Reach-InStep r in
    let idle = w.idle in
    let since = w.since in
    let same = health-consuming is_closed connected h in
    let clock = health-not_consuming_since is_closed connected h in
    let off : any_active_locked h ≡ false = ground arith in
    let dead = i.dead off in (off, ground arith, w.fresh, w.trusted)
