-- ===== src/Pool/Replacing.antt =====
-- pool/pool.go: the replacement of one connection.
use go_rabbitmq.Base.{
  ℕ, suc, ◌+◌, ◌≡◌, refl, sym, ap, subst, ◌∙◌, Bool, true, false, Option, none, some, List, [], ◌∷◌,
  ◌++◌, length, get_elem?, set, arith, if◌then◌else◌,
}
use go_rabbitmq.Pool.{
  Ping, ConnectionPool, present, close_old, needs_repair, repair_at, repair_needed, replace,
}
use go_rabbitmq.Pool.Checks.{calls}

-- Whether a connection is missing, or its client cannot be reached.
abbrev pub is_broken : (ℕ → Ping) → Option ℕ → Bool
is_broken ping none = true
is_broken ping (some c) = needs_repair true (ping c)

-- The connections with each broken one replaced by what dialling its place gives.
abbrev pub mended : (ℕ → Ping) → (ℕ → Option ℕ) → ℕ → List (Option ℕ) → List (Option ℕ)
mended ping dial i [] = []
mended ping dial i (c ∷ cs) = (if is_broken ping c then dial i else c) ∷ mended ping dial (suc i) cs

-- The clients of the broken connections, and how many of these were dialled with success.
abbrev pub broken : (ℕ → Ping) → List (Option ℕ) → List (Option ℕ)
broken ping [] = []
broken ping (c ∷ cs) = let rest = broken ping cs in if is_broken ping c then c ∷ rest else rest

abbrev pub any_broken : (ℕ → Ping) → List (Option ℕ) → Bool
any_broken ping [] = false
any_broken ping (c ∷ cs) = let rest = any_broken ping cs in if is_broken ping c then true else rest

get_elem?-middle :
    (xs : List (Option ℕ)) (c : Option ℕ) (ys : List (Option ℕ))
    → get_elem? (xs ++ c ∷ ys) (length xs) ≡ some c
get_elem?-middle [] c ys = refl
get_elem?-middle (x ∷ xs) c ys = get_elem?-middle xs c ys

set-middle :
    (xs : List (Option ℕ)) (c d : Option ℕ) (ys : List (Option ℕ))
    → set (xs ++ c ∷ ys) (length xs) d ≡ xs ++ d ∷ ys
set-middle [] c d ys = refl
set-middle (x ∷ xs) c d ys = ap (λ zs. x ∷ zs) (set-middle xs c d ys)

pub repair_needed-cons :
    (ping : ℕ → Ping) (i : ℕ) (c : Option ℕ) (cs : List (Option ℕ))
    → repair_needed ping true i (c ∷ cs) ≡ (
        if is_broken ping c
        then i ∷ repair_needed ping true (suc i) cs
        else repair_needed ping true (suc i) cs)
repair_needed-cons ping i none cs = refl
repair_needed-cons ping i (some c) cs = refl

-- `q` has the connections `cs` after those of `before`, and closed the clients in `old` besides `p`'s.
abbrev pub Mends :
    List (Option ℕ) → List (Option ℕ) → List (Option ℕ) → ConnectionPool → ConnectionPool → Type 0
Mends before cs old p q =
    (q.connections ≡ before ++ cs)
    × ((c : ℕ) → calls c q.close_calls ≡ calls c (present old) + calls c p.close_calls)
    × (q.closed ≡ p.closed)
    × (q.healthy_connections ≡ p.healthy_connections)
    × (q.unhealthy_connections ≡ p.unhealthy_connections)

closed_more :
    (c : Option ℕ) (made : List ℕ) (d : ℕ)
    → calls d (close_old c made) ≡ calls d (present (c ∷ [])) + calls d made
closed_more none made d = omega arith
closed_more (some c) made d = omega arith

replace-Mends :
    (before : List (Option ℕ)) (c d : Option ℕ) (cs : List (Option ℕ)) (p : ConnectionPool)
    → p.connections ≡ before ++ c ∷ cs
    → Mends before
        (d ∷ cs)
        (c ∷ [])
        p
        (replace (length before) d (record p { close_calls = close_old c p.close_calls }))
replace-Mends before c none cs p e = (
  ap (λ xs. set xs (length before) none) e ∙ set-middle before c none cs,
  closed_more c p.close_calls,
  refl,
  refl,
  refl,
)
replace-Mends before c (some d) cs p e = (
  ap (λ xs. set xs (length before) (some d)) e ∙ set-middle before c (some d) cs,
  closed_more c p.close_calls,
  refl,
  refl,
  refl,
)

pub repair_at-Mends :
    (dial : ℕ → Option ℕ) (before : List (Option ℕ)) (c : Option ℕ) (cs : List (Option ℕ))
    (p : ConnectionPool)
    → p.connections ≡ before ++ c ∷ cs
    → let i = length before in
      Mends before (dial i ∷ cs) (c ∷ []) p (repair_at dial i p (get_elem? p.connections i))
repair_at-Mends dial before c cs p e =
    let i = length before in
    subst (λ o. Mends before (dial i ∷ cs) (c ∷ []) p (repair_at dial i p o))
      (sym (ap (λ xs. get_elem? xs i) e ∙ get_elem?-middle before c cs))
      (replace-Mends before c (dial i) cs p e)

pub snoc_assoc :
    (xs : List (Option ℕ)) (c : Option ℕ) (ys : List (Option ℕ))
    → xs ++ c ∷ ys ≡ (xs ++ c ∷ []) ++ ys
snoc_assoc [] c ys = refl
snoc_assoc (x ∷ xs) c ys = ap (λ zs. x ∷ zs) (snoc_assoc xs c ys)

pub after_one :
    (before : List (Option ℕ)) (c d : Option ℕ) (cs cs' old : List (Option ℕ))
    (p q r : ConnectionPool)
    → Mends before (d ∷ cs) (c ∷ []) p q
    → Mends (before ++ d ∷ []) cs' old q r
    → Mends before (d ∷ cs') (c ∷ old) p r
after_one before none d cs cs' old p q r a b = (
  b.0 ∙ sym (snoc_assoc before d cs'),
  λ x. omega (arith, a.1 x, b.1 x),
  b.2 ∙ a.2,
  b.3 ∙ a.3,
  b.4 ∙ a.4,
)
after_one before (some c) d cs cs' old p q r a b = (
  b.0 ∙ sym (snoc_assoc before d cs'),
  λ x. omega (arith, a.1 x, b.1 x),
  b.2 ∙ a.2,
  b.3 ∙ a.3,
  b.4 ∙ a.4,
)
