-- ===== src/Pool/Rotation.antt =====
-- pool/pool.go: Get hands the healthy clients out in turn.
use go_rabbitmq.Base.{
  ℕ, zero, suc, ◌+◌, ◌%◌, ◌^◌, ◌<◌, ◌≡◌, sym, ap, ◌∙◌, false, none, List, ◌∷◌, length, get_elem?,
  arith, if◌then◌else◌,
}
use go_rabbitmq.Pool.{ConnectionPool, pick, get}

-- The state after some calls of `Get`.
abbrev pub gets : ℕ → ConnectionPool → ConnectionPool
unfolding get
gets zero p = p
gets (suc n) p = (get (gets n p)).0

get-alive :
    (p : ConnectionPool) (c : ℕ) (cs : List ℕ)
    → p.closed ≡ false
    → p.healthy_clients ≡ c ∷ cs
    → get p ≡ pick p (c ∷ cs)
unfolding get
get-alive p c cs alive healthy =
    ap (λ b. if b then (p, none) else pick p p.healthy_clients) alive ∙ ap (pick p) healthy

rotated :
    (n : ℕ) (p : ConnectionPool) (c : ℕ) (cs : List ℕ)
    → p.closed ≡ false
    → p.healthy_clients ≡ c ∷ cs
    → p.current + n < 2 ^ 64
    → gets n p ≡ record p { current = p.current + n }
unfolding get
rotated zero p c cs alive healthy small = ap (λ i. record p { current = i }) (omega arith)
rotated (suc n) p c cs alive healthy small =
    ap (λ q. (get q).0) (rotated n p c cs alive healthy (omega arith))
    ∙ ap (λ r. r.0) (get-alive (record p { current = p.current + n }) c cs alive healthy)
    ∙ ap (λ i. record p { current = i }) (omega arith)

-- A pool that is open, has a healthy client and whose counter does not wrap: the Get after `n` others
-- returns the client `n + 1` places after the counter in the list of healthy clients, counted round the
-- list. So as many calls as there are clients reach each of them.
pub get_in_turn :
    (n : ℕ) (p : ConnectionPool) (c : ℕ) (cs : List ℕ)
    → p.closed ≡ false
    → p.healthy_clients ≡ c ∷ cs
    → p.current + suc n < 2 ^ 64
    → (get (gets n p)).1
      ≡ get_elem? p.healthy_clients ((p.current + suc n) % length p.healthy_clients)
get_in_turn n p c cs alive healthy small =
    ap (λ q. (get q).1) (rotated n p c cs alive healthy (omega arith))
    ∙ ap (λ r. r.1) (get-alive (record p { current = p.current + n }) c cs alive healthy)
    ∙ ap (λ i. get_elem? (c ∷ cs) (i % length (c ∷ cs))) (omega arith)
    ∙ ap (λ h. get_elem? h ((p.current + suc n) % length h)) (sym healthy)
