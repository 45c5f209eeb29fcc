-- ===== src/Health/Subscriptions.antt =====
-- consumer_health.go: the state behind Consumer.Health. A channel is a number, and `now` is the time at
-- which an operation holds the mutex.
use go_rabbitmq.Base.{
  ℕ, ◌+◌, String, Bool, true, false, Option, none, some, List, [], ◌∷◌, if◌then◌else◌, ◌==◌, not,
}
use go_rabbitmq.Health.State.{is_zero}

pub record SubscriptionState : Type 0 where
  pub ch : Option ℕ
  pub active : Bool
  pub cancelled : Bool
  pub failures : ℕ
  pub err_code : ℕ
  pub err_at : ℕ

pub record ConsumerState : Type 0 where
  pub queue : String
  pub begun : Bool
  pub stopped : Bool
  -- By the subscription's id.
  pub subs : List (ℕ × SubscriptionState)
  pub last_err : String
  pub last_err_t : ℕ
  pub since : ℕ
  pub sub_at : ℕ
  pub last_delivery : ℕ
  pub last_ack : ℕ
  pub in_flight : ℕ

-- `sub`, and a change to what it returns.
abbrev pub fresh_sub : SubscriptionState
fresh_sub = record {
  ch = none;
  active = false;
  cancelled = false;
  failures = 0;
  err_code = 0;
  err_at = 0;
}

abbrev pub on_sub :
    ℕ
    → (SubscriptionState → SubscriptionState)
    → List (ℕ × SubscriptionState)
    → List (ℕ × SubscriptionState)
on_sub id f [] = (id, f fresh_sub) ∷ []
on_sub id f ((i, s) ∷ subs) = if i == id then (i, f s) ∷ subs else (i, s) ∷ on_sub id f subs

abbrev pub some_active : List (ℕ × SubscriptionState) → Bool
some_active [] = false
some_active ((i, s) ∷ subs) = if s.active then true else some_active subs

unfoldable pub any_active_locked : ConsumerState → Bool
any_active_locked h = some_active h.subs

unfoldable pub refresh_since_locked : ℕ → ConsumerState → ConsumerState
refresh_since_locked now h =
    if any_active_locked h
    then record h { since = 0 }
    else if is_zero h.since
    then record h { since = now }
    else h

unfoldable pub begin : ℕ → String → ConsumerState → ConsumerState
begin now queue h = record h {
  queue = queue;
  begun = true;
  stopped = false;
  subs = [];
  sub_at = 0;
  since = now;
}

abbrev pub deactivate : SubscriptionState → SubscriptionState
deactivate s = record s { active = false }

abbrev pub deactivate_all : List (ℕ × SubscriptionState) → List (ℕ × SubscriptionState)
deactivate_all [] = []
deactivate_all ((i, s) ∷ subs) = (i, deactivate s) ∷ deactivate_all subs

-- The operations refresh the clock last; these are the states before that.
abbrev pub ended : Bool → ConsumerState → ConsumerState
ended clean h = record h { stopped = clean; subs = deactivate_all h.subs }

unfoldable pub end : ℕ → Bool → ConsumerState → ConsumerState
end now clean h = refresh_since_locked now (ended clean h)

abbrev pub subscribe_to : ℕ → SubscriptionState → SubscriptionState
subscribe_to ch s = record s {
  ch = some ch;
  active = true;
  cancelled = false;
  failures = 0;
  err_code = 0;
  err_at = 0;
}

unfoldable pub subscribed : ℕ → ℕ → ℕ → ConsumerState → ConsumerState
subscribed now id ch h = refresh_since_locked now (record h {
  subs = on_sub id (subscribe_to ch) h.subs;
  sub_at = if is_zero h.sub_at then now else h.sub_at;
})

abbrev pub channel_closed : ℕ → ConsumerState → ConsumerState
channel_closed id h = record h { subs = on_sub id deactivate h.subs; sub_at = 0 }

unfoldable pub closed : ℕ → ℕ → ConsumerState → ConsumerState
closed now id h = refresh_since_locked now (channel_closed id h)

abbrev pub sub_of : ℕ → List (ℕ × SubscriptionState) → SubscriptionState
sub_of id [] = fresh_sub
sub_of id ((i, s) ∷ subs) = if i == id then s else sub_of id subs

abbrev pub is_channel : Option ℕ → ℕ → Bool
is_channel none ch = false
is_channel (some c) ch = c == ch

abbrev pub sub_cancelled : ℕ → ConsumerState → ConsumerState
sub_cancelled id h = record h {
  subs = on_sub id (λ s. record s { active = false; cancelled = true }) h.subs;
  sub_at = 0;
}

abbrev pub looked_up : ℕ → ConsumerState → ConsumerState
looked_up id h = record h { subs = on_sub id (λ s. s) h.subs }

-- A stale notification leaves at most an empty entry.
unfoldable pub cancelled_by_broker : ℕ → ℕ → ℕ → ConsumerState → ConsumerState
cancelled_by_broker now id ch h =
    if not (is_channel (sub_of id h.subs).ch ch)
    then looked_up id h
    else refresh_since_locked now (sub_cancelled id h)

-- `code` is the AMQP reply code that the error carries, or 0.
abbrev pub fail_with : ℕ → ℕ → SubscriptionState → SubscriptionState
fail_with now code s = record s {
  active = false;
  failures = s.failures + 1;
  err_code = code;
  err_at = now;
}

abbrev pub sub_failed : ℕ → ℕ → String → ℕ → ConsumerState → ConsumerState
sub_failed now id reason code h = record h {
  subs = on_sub id (fail_with now code) h.subs;
  last_err = reason;
  last_err_t = now;
}

unfoldable pub failed : ℕ → ℕ → String → ℕ → ConsumerState → ConsumerState
failed now id reason code h = refresh_since_locked now (sub_failed now id reason code h)

unfoldable pub delivered : ℕ → Bool → ConsumerState → ConsumerState
delivered now auto_ack h =
    if auto_ack
    then record h { last_delivery = now; last_ack = now }
    else record h { last_delivery = now }

unfoldable pub acked : ℕ → ConsumerState → ConsumerState
acked now h = record h { last_ack = now }
