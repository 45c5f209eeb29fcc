-- ===== src/Pool.antt =====
-- pool/pool.go: the connection pool. A client is a number; `dial` says what a repair of a connection
-- gives, and `ping` how a client answers. The pool's locks are not modelled: each operation is one step.
use go_rabbitmq.Base.{
  ℕ, zero, suc, ◌+◌, ◌%◌, ◌^◌, String, Bool, true, false, Option, none, some, List, [], ◌∷◌, ◌++◌,
  if◌then◌else◌, length, get_elem?, set,
}
mod Tests
pub mod Rotation
pub mod Checks
pub mod Replacing
pub mod Repairs

pub data Ping : Type 0 where
  answers connection_error other_error : Ping

pub record ConnectionPool : Type 0 where
  pub connections : List (Option ℕ)
  pub healthy_clients : List ℕ
  pub current : ℕ
  pub closed : Bool
  pub auto_repair : Bool
  pub healthy_connections : ℕ
  pub unhealthy_connections : ℕ
  pub total_repair_attempts : ℕ
  -- The calls of a client's Close, newest first.
  pub close_calls : List ℕ

abbrev pub answered : Ping → Bool
answered answers = true
answered _ = false

abbrev pub pinged : (ℕ → Ping) → List (Option ℕ) → List ℕ
pinged ping [] = []
pinged ping (none ∷ cs) = pinged ping cs
pinged ping (some c ∷ cs) =
    let rest = pinged ping cs in if answered (ping c) then c ∷ rest else rest

unfoldable pub update_healthy_clients : (ℕ → Ping) → ConnectionPool → ConnectionPool
update_healthy_clients ping p =
    if p.closed
    then record p { healthy_clients = [] }
    else record p { healthy_clients = pinged ping p.connections }

abbrev pub pick : ConnectionPool → List ℕ → ConnectionPool × Option ℕ
pick p [] = (p, none)
pick p (c ∷ cs) =
    let current = (p.current + 1) % 2 ^ 64 in
    (record p { current = current }, get_elem? (c ∷ cs) (current % length (c ∷ cs)))

-- `Get`, on a 64-bit counter; `none` is an error.
unfoldable pub get : ConnectionPool → ConnectionPool × Option ℕ
get p = if p.closed then (p, none) else pick p p.healthy_clients

-- What a health check finds: `repairNeeded`, from an index on, and the two counts.
abbrev pub needs_repair : Bool → Ping → Bool
needs_repair auto_repair connection_error = auto_repair
needs_repair auto_repair _ = false

abbrev pub repair_needed : (ℕ → Ping) → Bool → ℕ → List (Option ℕ) → List ℕ
repair_needed ping auto_repair i [] = []
repair_needed ping auto_repair i (none ∷ cs) = i ∷ repair_needed ping auto_repair (suc i) cs
repair_needed ping auto_repair i (some c ∷ cs) =
    let rest = repair_needed ping auto_repair (suc i) cs in
    if needs_repair auto_repair (ping c) then i ∷ rest else rest

abbrev pub healthy_count : (ℕ → Ping) → List (Option ℕ) → ℕ
healthy_count ping [] = 0
healthy_count ping (none ∷ cs) = healthy_count ping cs
healthy_count ping (some c ∷ cs) =
    let rest = healthy_count ping cs in if answered (ping c) then rest + 1 else rest

abbrev pub unhealthy_count : (ℕ → Ping) → List (Option ℕ) → ℕ
unhealthy_count ping [] = 0
unhealthy_count ping (none ∷ cs) = unhealthy_count ping cs + 1
unhealthy_count ping (some c ∷ cs) =
    let rest = unhealthy_count ping cs in if answered (ping c) then rest else rest + 1

abbrev pub present : List (Option ℕ) → List ℕ
present [] = []
present (none ∷ cs) = present cs
present (some c ∷ cs) = c ∷ present cs

abbrev pub close_old : Option ℕ → List ℕ → List ℕ
close_old none calls = calls
close_old (some c) calls = c ∷ calls

abbrev pub replace : ℕ → Option ℕ → ConnectionPool → ConnectionPool
replace i none p = record p { connections = set p.connections i none }
replace i (some c) p = record p {
  connections = set p.connections i (some c);
  total_repair_attempts = p.total_repair_attempts + 1;
}

abbrev pub repair_at : (ℕ → Option ℕ) → ℕ → ConnectionPool → Option (Option ℕ) → ConnectionPool
repair_at dial i p none = p
repair_at dial i p (some old) =
    replace i (dial i) (record p { close_calls = close_old old p.close_calls })

abbrev pub repair_each : (ℕ → Option ℕ) → List ℕ → ConnectionPool → ConnectionPool
repair_each dial [] p = p
repair_each dial (i ∷ is) p = repair_each dial is (repair_at dial i p (get_elem? p.connections i))

unfoldable pub repair_connections : (ℕ → Option ℕ) → List ℕ → ConnectionPool → ConnectionPool
repair_connections dial indices p =
    if p.closed
    then p
    else let p' = repair_each dial indices p in
      record p' { healthy_clients = present p'.connections }

abbrev pub checked : (ℕ → Ping) → ConnectionPool → ConnectionPool
checked ping p = record p {
  healthy_clients = pinged ping p.connections;
  healthy_connections = healthy_count ping p.connections;
  unhealthy_connections = unhealthy_count ping p.connections;
}

abbrev pub repair_found : (ℕ → Option ℕ) → List ℕ → ConnectionPool → ConnectionPool
repair_found dial [] p = p
repair_found dial (i ∷ is) p = repair_connections dial (i ∷ is) p

-- `performHealthCheck`; a ping that panics counts as a connection error.
unfoldable pub perform_health_check : (ℕ → Ping) → (ℕ → Option ℕ) → ConnectionPool → ConnectionPool
unfolding repair_connections
perform_health_check ping dial p =
    if p.closed
    then p
    else if p.auto_repair
    then repair_found dial (repair_needed ping p.auto_repair 0 p.connections) (checked ping p)
    else checked ping p

abbrev pub close_all : List (Option ℕ) → List ℕ → List ℕ
close_all [] calls = calls
close_all (c ∷ cs) calls = close_all cs (close_old c calls)

unfoldable pub close : ConnectionPool → ConnectionPool
close p =
    if p.closed
    then p
    else record p { closed = true; close_calls = close_all p.connections p.close_calls }
