-- ===== src/Publisher/Outcome/Sections.antt =====
-- Each locked section keeps what was reported of its message, and reports what it decides.
use go_rabbitmq.Base.{
  ℕ, ◌≡◌, refl, sym, ap, ◌∙◌, String, Bool, true, false, some, if_either, if_cases, ◌||◌, arith,
}
use go_rabbitmq.Message.{DeliveryOutcome, success, failed, nacked, timeout}
use go_rabbitmq.Publisher.State.{
  PendingMessage, PublisherConfig, Task, finish_async, retry_message, message_returned,
}
use go_rabbitmq.Publisher.Handlers.{
  stop, Verdict, finalize, grace, wait, verdict, conclude, try_finalize_message, should_retry,
  confirmation_locked, return_locked, grace_locked, timeout_locked, settle_orphan, send_returned,
}
use go_rabbitmq.Publisher.Track.{counted_retry}
use go_rabbitmq.Publisher.Outcome.Backed.{IsBacked, Keeps}
use go_rabbitmq.Publisher.Outcome.Locked.{Reports}

pub Keeps-refl : (m : PendingMessage) → Keeps m m
Keeps-refl m = record {
  message_id = refl;
  callback = refl;
  fired = λ h. h;
  outcome = λ h. refl;
  error = λ h. refl;
}

answered :
    (m : PendingMessage) (confirmed was_nacked : Bool)
    → Keeps m (record m { confirmed = confirmed; was_nacked = was_nacked })
answered m confirmed was_nacked = record {
  message_id = refl;
  callback = refl;
  fired = λ h. h;
  outcome = λ h. refl;
  error = λ h. refl;
}

-- A section that changes no message that is decided.
pub Keeps-undecided :
    (m m' : PendingMessage)
    → m.callback_fired ≡ false
    → m'.message_id ≡ m.message_id
    → m'.callback ≡ m.callback
    → Keeps m m'
Keeps-undecided m m' h i c = record {
  message_id = i;
  callback = c;
  fired = λ g. cc;
  outcome = λ g. cc;
  error = λ g. cc;
}

module _ (c : PublisherConfig) where
  retried_nack : (o : DeliveryOutcome) (m : PendingMessage) → should_retry c o m ≡ true → o ≡ nacked
  unfolding should_retry
  retried_nack nacked m h = refl
  retried_nack success m h = cc
  retried_nack failed m h = cc
  retried_nack timeout m h = cc

  conclude-Reports :
      (m m' : PendingMessage) (v : Verdict)
      → m.callback_fired ≡ false
      → m'.message_id ≡ m.message_id
      → m'.callback ≡ m.callback
      → Reports m (conclude c m' v)
  unfolding conclude
  conclude-Reports m m' wait h i k = (Keeps-undecided m m' h i k, tt)
  conclude-Reports m m' grace h i k = (Keeps-undecided m _ h i k, tt)
  conclude-Reports m m' (finalize o e) h i k =
      let n = record m' {
        callback_fired = true;
        final_outcome = some o;
        final_error = e;
        timeout_timer = stop m'.timeout_timer;
      } in
      (
        Keeps-undecided m n h i k,
        (
          tt,
          (
            if_cases (λ (t : Task). IsBacked t n) (should_retry c o m') retry_message
                (finish_async m'.message_id m'.key m'.callback o e)
                (λ r. (refl, ap some (retried_nack o m' r))) (λ r. (refl, refl, refl, refl, refl)),
            tt,
          ),
        ),
      )

  -- With `m'`, which differs from `m` in the flags of answers.
  try_finalize-Reports :
      (m m' : PendingMessage)
      → Keeps m m'
      → m'.callback_fired ≡ m.callback_fired
      → Reports m (try_finalize_message c m')
  unfolding try_finalize_message
  try_finalize-Reports m m' k same =
      if_cases (Reports m) m'.callback_fired _ _ (λ h. (k, tt))
        (λ h. conclude-Reports m m' (verdict m') (sym same ∙ h) k.message_id k.callback)

  pub confirmation-Reports :
      (ack : Bool) (m : PendingMessage) → Reports m (confirmation_locked c ack m)
  unfolding confirmation_locked
  confirmation-Reports true m =
      try_finalize-Reports m (record m { confirmed = true }) (answered m true m.was_nacked) refl
  confirmation-Reports false m =
      try_finalize-Reports m (record m { was_nacked = true }) (answered m m.confirmed true) refl

  pub return-Reports :
      (text : String) (code : ℕ) (m : PendingMessage) → Reports m (return_locked c text code m)
  unfolding return_locked
  return-Reports text code m =
      if_cases (Reports m) m.callback_fired _ _ (λ h. (Keeps-refl m, tt))
        (λ h.
          try_finalize-Reports m
            (record m { returned = true; return_reason = message_returned text code })
            (Keeps-undecided m _ h refl refl) refl)

  pub timeout-Reports : (tag : ℕ) (m : PendingMessage) → Reports m (timeout_locked c tag m)
  unfolding timeout_locked
  timeout-Reports tag m =
      if_cases (Reports m) m.callback_fired _ _ (λ h. (Keeps-refl m, tt))
        (λ h.
          if_either (Reports m) m.in_flight _ _ (Keeps-undecided m _ h refl refl, tt)
            (Keeps-undecided m _ h refl refl, (tt, (tt, ((refl, refl, refl, refl, refl), tt)))))

pub grace-Reports : (tag : ℕ) (m : PendingMessage) → Reports m (grace_locked tag m)
unfolding grace_locked
grace-Reports tag m =
    if_cases (Reports m) m.callback_fired _ _ (λ h. (Keeps-refl m, tt))
      (λ h.
        if_either (Reports m) m.returned _ _ (Keeps-refl m, tt)
          (Keeps-undecided m _ h refl refl, (tt, ((refl, refl, refl, refl, refl), tt))))

undecided_if :
    (m : PendingMessage)
    → (m.callback_fired || m.confirmed || m.was_nacked || m.returned) ≡ false
    → m.callback_fired ≡ false
undecided_if m h = ground (arith, h)

pub orphan-Reports : (reason : String) (m : PendingMessage) → Reports m (settle_orphan reason m)
unfolding settle_orphan
orphan-Reports reason m =
    if_cases (Reports m) _ _ _ (λ h. (Keeps-refl m, tt))
      (λ h.
        if_either (Reports m) m.in_flight _ _ (Keeps-undecided m _ (undecided_if m h) refl refl, tt)
          (
            Keeps-undecided m _ (undecided_if m h) refl refl,
            (tt, (tt, ((refl, refl, refl, refl, refl), tt))),
          ))

pub send_returned-Keeps : (sent : Bool) (m : PendingMessage) → Keeps m (send_returned sent m)
unfolding send_returned
send_returned-Keeps true m = record {
  message_id = refl;
  callback = refl;
  fired = λ h. h;
  outcome = λ h. refl;
  error = λ h. refl;
}
send_returned-Keeps false m = record {
  message_id = refl;
  callback = refl;
  fired = λ h. refl;
  outcome = λ h. refl;
  error = λ h. refl;
}

pub counted_retry-Keeps : (m : PendingMessage) → Keeps m (counted_retry m)
counted_retry-Keeps m = record {
  message_id = refl;
  callback = refl;
  fired = λ h. h;
  outcome = λ h. refl;
  error = λ h. refl;
}
