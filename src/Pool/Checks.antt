-- ===== src/Pool/Checks.antt =====
-- pool/pool.go: what a health check and a close leave behind.
use go_rabbitmq.Base.{
  ℕ, ◌+◌, ◌≡◌, refl, sym, ap, ◌∙◌, true, false, Option, none, some, List, [], ◌∷◌, length, All,
  arith, if◌then◌else◌, if_fails, Bool-cases, inl, inr, sum_by, ◌==◌,
}
use go_rabbitmq.Pool.{
  Ping, ConnectionPool, answered, pinged, healthy_count, unhealthy_count, present, close_all, close,
  get, perform_health_check,
}

pinged-answers :
    (ping : ℕ → Ping) (cs : List (Option ℕ)) → All (λ c. answered (ping c) ≡ true) (pinged ping cs)
pinged-answers ping [] = tt
pinged-answers ping (none ∷ cs) = pinged-answers ping cs
pinged-answers ping (some c ∷ cs) = elim (Bool-cases (answered (ping c))) [
  | inl up ↦ rw up (up, pinged-answers ping cs)
  | inr down ↦ rw down (pinged-answers ping cs)
]

length-pinged :
    (ping : ℕ → Ping) (cs : List (Option ℕ)) → healthy_count ping cs ≡ length (pinged ping cs)
length-pinged ping [] = refl
length-pinged ping (none ∷ cs) = length-pinged ping cs
length-pinged ping (some c ∷ cs) = let rest = length-pinged ping cs in ground arith

pub all_counted :
    (ping : ℕ → Ping) (cs : List (Option ℕ))
    → healthy_count ping cs + unhealthy_count ping cs ≡ length cs
all_counted ping [] = refl
all_counted ping (none ∷ cs) = let rest = all_counted ping cs in ground arith
all_counted ping (some c ∷ cs) = let rest = all_counted ping cs in ground arith

-- What a check records, before any repair.
abbrev pub IsChecked : (ℕ → Ping) → ConnectionPool → ConnectionPool → Type 0
IsChecked ping p q =
    All (λ c. answered (ping c) ≡ true) q.healthy_clients
    × (q.healthy_connections ≡ length q.healthy_clients)
    × (q.healthy_connections + q.unhealthy_connections ≡ length p.connections)
    × (q.connections ≡ p.connections)

-- An open pool without automatic repair: a health check keeps as healthy only clients that answered,
-- counts every connection once, as healthy or unhealthy, and changes no connection.
pub check_without_repair :
    (ping : ℕ → Ping) (dial : ℕ → Option ℕ) (p : ConnectionPool)
    → p.closed ≡ false
    → p.auto_repair ≡ false
    → IsChecked ping p (perform_health_check ping dial p)
unfolding perform_health_check
check_without_repair ping dial p alive off = if_fails (IsChecked ping p) p.closed _ _ alive (
    if_fails (IsChecked ping p) p.auto_repair _ _ off (
      pinged-answers ping p.connections,
      length-pinged ping p.connections,
      all_counted ping p.connections,
      refl,
    ))

abbrev pub calls : ℕ → List ℕ → ℕ
calls c = sum_by (λ d. if d == c then 1 else 0)

calls-close_all :
    (c : ℕ) (cs : List (Option ℕ)) (made : List ℕ)
    → calls c (close_all cs made) ≡ calls c (present cs) + calls c made
calls-close_all c [] made = omega arith
calls-close_all c (none ∷ cs) made = calls-close_all c cs made
calls-close_all c (some d ∷ cs) made = let rest = calls-close_all c cs (d ∷ made) in omega arith

-- Closing a pool: each client in it is closed once more than before, Get fails from then on, and a
-- second close does nothing.
pub close_once :
    (p : ConnectionPool)
    → p.closed ≡ false
    → ((c : ℕ)
        → calls c (close p).close_calls ≡ calls c (present p.connections) + calls c p.close_calls)
      × ((get (close p)).1 ≡ none)
      × (close (close p) ≡ close p)
unfolding close get
close_once p alive =
    let q = record p { closed = true; close_calls = close_all p.connections p.close_calls } in
    let shut : close p ≡ q = ap (λ b. if b then p else q) alive in
    (
      λ c. ap (λ r. calls c r.close_calls) shut ∙ calls-close_all c p.connections p.close_calls,
      ap (λ r. (get r).1) shut,
      ap close shut ∙ sym shut,
    )
