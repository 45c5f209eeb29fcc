-- ===== src/Backoff/Tests.antt =====
-- The schedule at concrete counts.
use go_rabbitmq.Base.{ℕ, ◌≡◌, ◌-◌, ◌*◌, ◌^◌, ◌+◌, zero, suc, min, refl}
use go_rabbitmq.Base.Int.{pos, pos_part}
use go_rabbitmq.Backoff.{backoff_base, backoff_max, backoff_for_delivery_count, backoff_schedule}

abbrev total_wait : ℕ → ℕ
total_wait zero = 0
total_wait (suc n) = total_wait n + backoff_for_delivery_count (pos n)

-- Twenty deliveries, of which the first carries no count: seven and a half minutes.
twenty_deliveries : total_wait 20 ≡ 452 * backoff_base
unfolding backoff_for_delivery_count
twenty_deliveries = refl

backoff_schedule_example :
    backoff_for_delivery_count (pos 6) ≡ min (backoff_base * 2 ^ (pos_part (pos 6) - 1)) backoff_max
backoff_schedule_example = backoff_schedule (pos 6)
