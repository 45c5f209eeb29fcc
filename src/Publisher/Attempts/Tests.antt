-- ===== src/Publisher/Attempts/Tests.antt =====
-- Runs of the attempts.
use go_rabbitmq.Base.{◌≡◌, refl, inl, true, false, none, some, ltb, if◌then◌else◌, arith}
use go_rabbitmq.Publisher.Attempts.{
  channel, published, failed, Attempts, attempts_loop, publish_attempts,
}
use go_rabbitmq.Publisher.Attempts.Steps.{EndsWithin}
use go_rabbitmq.Publisher.Attempts.Once.{publish_attempts_once}

-- The channel is open again at attempt 2.
abbrev restarts : Attempts
restarts = record {
  result = λ n. if ltb n 2 then some channel else none;
  done = λ n. false;
  done_waiting = λ n. false;
  allows = λ n. true;
  auto_reconnect = true;
  max_connection_retries = 3;
}

publish_attempts_once_example : EndsWithin restarts 4 (publish_attempts restarts 5)
publish_attempts_once_example = publish_attempts_once restarts 4 (inl (omega arith, refl))

third_attempt : publish_attempts restarts 5 ≡ some (3, published)
unfolding publish_attempts attempts_loop
third_attempt = refl

-- A channel that stays closed is tried once more than the cap.
abbrev stays_closed : Attempts
stays_closed = record restarts { result = λ n. some channel }

four_attempts : publish_attempts stays_closed 5 ≡ some (4, failed channel)
unfolding publish_attempts attempts_loop
four_attempts = refl
