-- ===== src/Publisher/Attempts.antt =====
-- publisher.go: the attempts of publishWithDeliveryAssurance, each a `publishTracked` of a fresh entry.
pub mod Steps
pub mod Once
mod Tests
use go_rabbitmq.Base.{ℕ, zero, suc, Bool, not, ◌&&◌, Option, none, some, ltb, if◌then◌else◌}

-- How an attempt fails: `channel` is what isChannelError recognises.
pub data AttemptError : Type 0 where
  duplicate_id channel other : AttemptError

pub data AttemptEnd : Type 0 where
  published cancelled : AttemptEnd
  failed : AttemptError → AttemptEnd

-- What the attempts meet, by their number from 0: how each goes, whether the context has ended after it
-- or ends in the wait, and whether the ReconnectPolicy allows the next, which without a policy it does.
-- A refresh of the channel that fails shows in the next attempt. A negative cap is no cap, as 0 is.
pub record Attempts : Type 0 where
  pub result : ℕ → Option AttemptError
  pub done : ℕ → Bool
  pub done_waiting : ℕ → Bool
  pub allows : ℕ → Bool
  pub auto_reconnect : Bool
  pub max_connection_retries : ℕ

module _ (e : Attempts) where
  abbrev pub after_channel_error : ℕ → Option (ℕ × AttemptEnd) → Option (ℕ × AttemptEnd)
  after_channel_error n rest =
      if not e.auto_reconnect
      then some (suc n, failed channel)
      else if e.done n
      then some (suc n, cancelled)
      else if not (e.allows (suc n))
      then some (suc n, failed channel)
      else if e.done_waiting n
      then some (suc n, cancelled)
      else rest

  abbrev pub after_attempt :
      ℕ → Option AttemptError → Option (ℕ × AttemptEnd) → Option (ℕ × AttemptEnd)
  after_attempt n none rest = some (suc n, published)
  after_attempt n (some duplicate_id) rest = some (suc n, failed duplicate_id)
  after_attempt n (some other) rest = some (suc n, failed other)
  after_attempt n (some channel) rest = after_channel_error n rest

  abbrev pub ended_with : Option AttemptError → AttemptEnd
  ended_with none = published
  ended_with (some error) = failed error

  -- The number of attempts made and how the call ends, from attempt `n` with the error of the one before.
  unfoldable pub attempts_loop : ℕ → ℕ → AttemptEnd → Option (ℕ × AttemptEnd)
  attempts_loop zero n last = none
  attempts_loop (suc fuel) n last =
      let rest = attempts_loop fuel (suc n) (ended_with (e.result n)) in
      if ltb 0 e.max_connection_retries && ltb e.max_connection_retries n
      then some (n, last)
      else after_attempt n (e.result n) rest

  -- The error is nil before the first attempt.
  unfoldable pub publish_attempts : ℕ → Option (ℕ × AttemptEnd)
  publish_attempts fuel = attempts_loop fuel 0 published
