-- ===== src/Pool/Tests.antt =====
-- A pool of three connections, one of them broken, and the pool's theorems on it.
use go_rabbitmq.Base.{
  ℕ, ◌+◌, ◌%◌, ◌≡◌, refl, Bool, true, false, Option, none, some, [], ◌∷◌, length, get_elem?, arith,
  ◌==◌, if◌then◌else◌,
}
use go_rabbitmq.Pool.{
  Ping, answers, other_error, ConnectionPool, get, close, perform_health_check, repair_connections,
}
use go_rabbitmq.Pool.Rotation.{gets, get_in_turn}
use go_rabbitmq.Pool.Checks.{IsChecked, check_without_repair, calls, close_once}

abbrev three : Bool → ConnectionPool
three auto_repair = record {
  connections = some 7 ∷ none ∷ some 9 ∷ [];
  healthy_clients = 7 ∷ 9 ∷ [];
  current = 4;
  closed = false;
  auto_repair = auto_repair;
  healthy_connections = 2;
  unhealthy_connections = 1;
  total_repair_attempts = 0;
  close_calls = [];
}

-- The last one is connected but does not answer in time.
abbrev slow : ℕ → Ping
slow c = if c == 7 then answers else other_error

abbrev redials : ℕ → Option ℕ
redials i = some (10 + i)

slow_is_healthy : (perform_health_check slow redials (three true)).healthy_clients ≡ 7 ∷ 11 ∷ 9 ∷ []
unfolding perform_health_check repair_connections
slow_is_healthy = refl

get_in_turn_example :
    (get (gets 3 (three true))).1
    ≡ get_elem? (three true).healthy_clients ((4 + 4) % length (three true).healthy_clients)
get_in_turn_example = get_in_turn 3 (three true) 7 (9 ∷ []) refl refl (omega arith)

check_without_repair_example :
    IsChecked slow (three false) (perform_health_check slow redials (three false))
check_without_repair_example = check_without_repair slow redials (three false) refl refl

close_once_example :
    ((c : ℕ) → calls c (close (three true)).close_calls ≡ calls c (7 ∷ 9 ∷ []) + calls c [])
    × ((get (close (three true))).1 ≡ none)
    × (close (close (three true)) ≡ close (three true))
close_once_example = close_once (three true) refl
