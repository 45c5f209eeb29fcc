-- ===== src/Health/Guards.antt =====
-- health.go: the restart-storm guard and the latest of some times.
use go_rabbitmq.Base.{
  ℕ, ◌+◌, ◌-◌, ◌*◌, ◌≤◌, ◌≡◌, Bool, true, false, Option, none, some, List, [], ◌∷◌, if◌then◌else◌,
  ltb, not, All, arith,
}
use go_rabbitmq.Health.State.{HealthLevel, health_degraded, ClientState, second}

abbrev pub default_min_connection_age : ℕ
default_min_connection_age = 120 * second

-- `connectionTrusted`, without the name of the guard that failed.
unfoldable pub connection_trusted : ClientState → ℕ → ℕ → Bool
connection_trusted cs min_age now =
    if not cs.connected
    then false
    else if cs.reconnecting
    then false
    else if cs.blocked
    then false
    else if ltb (now - cs.connected_at) min_age
    then false
    else true

abbrev later_of : ℕ → List ℕ → ℕ
later_of latest [] = latest
later_of latest (t ∷ ts) = later_of (if ltb latest t then t else latest) ts

unfoldable pub latest_of : List ℕ → ℕ
latest_of ts = later_of 0 ts

unfoldable pub gave_up_verdict : ClientState → Option HealthLevel
gave_up_verdict cs = if not cs.gave_up then none else some health_degraded

-- All that the guard asks for, for a positive minimum.
pub record IsTrusted (cs : ClientState) (min_age now : ℕ) : Type 0 where
  pub connected : cs.connected ≡ true
  pub settled : cs.reconnecting ≡ false
  pub unblocked : cs.blocked ≡ false
  pub aged : cs.connected_at + min_age ≤ now

pub connection_trusted-IsTrusted :
    (cs : ClientState) (min_age now : ℕ)
    → 1 ≤ min_age
    → connection_trusted cs min_age now ≡ true
    → IsTrusted cs min_age now
unfolding connection_trusted
connection_trusted-IsTrusted cs min_age now positive h = record {
  connected = ground arith;
  settled = ground arith;
  unblocked = ground arith;
  aged = ground arith;
}

later_of-bound : (t : ℕ) (ts : List ℕ) → t ≤ later_of t ts
later_of-bound t [] = omega arith
later_of-bound t (u ∷ ts) = let rest = later_of-bound (if ltb t u then u else t) ts in ground arith

later_of-All : (t : ℕ) (ts : List ℕ) → All (λ u. u ≤ later_of t ts) ts
later_of-All t [] = tt
later_of-All t (u ∷ ts) =
    let next = if ltb t u then u else t in
    let rest = later_of-bound next ts in (ground arith, later_of-All next ts)

-- No time of the list is later than the latest.
pub latest_of-All : (ts : List ℕ) → All (λ u. u ≤ latest_of ts) ts
unfolding latest_of
latest_of-All ts = later_of-All 0 ts
