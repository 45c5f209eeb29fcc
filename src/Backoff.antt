-- ===== src/Backoff.antt =====
-- backoff.go: the delay before a redelivery, in nanoseconds.
mod Tests
use go_rabbitmq.Base.{
  ℕ, zero, suc, ◌+◌, ◌-◌, ◌*◌, ◌^◌, ◌≤◌, ◌<◌, ◌≡◌, refl, sym, ap, ◌∙◌, min, Bool, true, false,
  Option, none, some, List, [], ◌∷◌, if◌then◌else◌, ltb, leb, arith,
}
use native.Mathlib.Numerals.{unary_clauses}
use native.Mathlib.Nat.{mul_assoc}
use native.Mathlib.Omega.{pow_step}
use go_rabbitmq.Base.Int.{ℤ, pos, negsuc, ltb_ℤ, pos_part}
use go_rabbitmq.Message.{Table}
use go_rabbitmq.Consumer.Errors.{field, integer, or_else}

abbrev pub backoff_base : ℕ
backoff_base = 1000000000

abbrev pub backoff_max : ℕ
backoff_max = 30000000000

-- The loop, with the number of turns left.
abbrev pub doubled : ℕ → ℕ → ℕ
doubled zero d = d
doubled (suc turns) d =
    let rest = doubled turns (d * 2) in if leb backoff_max (d * 2) then backoff_max else rest

unfoldable pub backoff_for_delivery_count : ℤ → ℕ
backoff_for_delivery_count count =
    let n = if ltb_ℤ count (pos 1) then 1 else pos_part count in doubled (n - 1) backoff_base

-- `DeliveryCount`, of a delivery that is not nil.
unfoldable pub delivery_count : Table → ℤ
delivery_count headers = or_else (integer (field "x-delivery-count" headers)) (λ n. n) (pos 0)

-- `RequeueWithBackoff`: the wait, if nothing cuts it short. Its result is always a `RejectError` that
-- requeues.
unfoldable pub requeue_wait : Table → ℕ
unfolding delivery_count
requeue_wait headers = backoff_for_delivery_count (delivery_count headers)

le_times : (a q : ℕ) → 1 ≤ q → a ≤ a * q
le_times a zero h = ground arith
le_times a (suc q) h = simp unary_clauses (omega arith)

power_positive : (n : ℕ) → 1 ≤ 2 ^ n
power_positive zero = omega arith
power_positive (suc n) = let rest = power_positive n in let step = pow_step 2 n in omega arith

doubled-min : (turns d : ℕ) → d < backoff_max → doubled turns d ≡ min (d * 2 ^ turns) backoff_max
doubled-min zero d h = ground arith
doubled-min (suc turns) d h =
    let grows = le_times (d * 2) (2 ^ turns) (power_positive turns) in
    let step : d * 2 ^ suc turns ≡ d * 2 * 2 ^ turns =
      ap (◌*◌ d) (pow_step 2 turns) ∙ sym (mul_assoc d 2 (2 ^ turns)) in
    let rest = doubled-min turns (d * 2) in ground (arith, rest)

turns_left :
    (count : ℤ) → (if ltb_ℤ count (pos 1) then 1 else pos_part count) - 1 ≡ pos_part count - 1
turns_left (pos n) = ground arith
turns_left (negsuc n) = ground arith

-- The delay is `backoffBase * 2^(count-1)` for a count of at least 1 and `backoffBase` below, never more
-- than `backoffMax`.
pub backoff_schedule :
    (count : ℤ)
    → backoff_for_delivery_count count ≡ min (backoff_base * 2 ^ (pos_part count - 1)) backoff_max
unfolding backoff_for_delivery_count
backoff_schedule count =
    ap (λ n. doubled n backoff_base) (turns_left count)
    ∙ doubled-min (pos_part count - 1) backoff_base (omega arith)
