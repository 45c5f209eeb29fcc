-- ===== src/Pool/Repairs.antt =====
-- pool/pool.go: what a health check with automatic repair leaves behind.
use go_rabbitmq.Base.{ℕ, ◌+◌, ◌≡◌, true, false, Option, List, [], ◌∷◌, length, if◌then◌else◌}
use go_rabbitmq.Pool.{Ping, ConnectionPool, pinged, present}
use go_rabbitmq.Pool.Checks.{calls}
use go_rabbitmq.Pool.Replacing.{mended, broken, any_broken}

module _ (ping : ℕ → Ping) (dial : ℕ → Option ℕ) where
  -- What is found to be repaired is nothing exactly if nothing is broken.
  unfoldable Found : List (Option ℕ) → List ℕ → Type 0
  Found cs [] = any_broken ping cs ≡ false
  Found cs (i ∷ is) = any_broken ping cs ≡ true

  -- The pool `q` after a check of `p` that repairs.
  abbrev pub IsRepaired : ConnectionPool → ConnectionPool → Type 0
  IsRepaired p q =
      (q.connections ≡ mended ping dial 0 p.connections)
      × ((c : ℕ)
          → calls c q.close_calls
            ≡ calls c (present (broken ping p.connections)) + calls c p.close_calls)
      × (q.healthy_clients ≡ (
          if any_broken ping p.connections
          then present q.connections
          else pinged ping p.connections))
      × (q.healthy_connections + q.unhealthy_connections ≡ length p.connections)
