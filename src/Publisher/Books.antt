-- ===== src/Publisher/Books.antt =====
-- The books of delivery assurance: who has been told of each publish attempt, and what the counters
-- say of all of them.
pub mod Effects
pub mod Handlers
pub mod Entries
pub mod Sends
use go_rabbitmq.Base.{
  ℕ, zero, suc, ◌+◌, ◌≡◌, refl, Bool, true, false, none, some, List, [], ◌∷◌, ◌==◌, if◌then◌else◌,
  get_elem?, sum_by,
}
use go_rabbitmq.Message.{DeliveryStats}
use go_rabbitmq.Publisher.State.{PendingMessage, Publisher}
use go_rabbitmq.Publisher.Settles.{to_ℕ}

-- How often an address stands in a list of goroutines or of signals.
abbrev pub hits {ℓ} : {A : Type ℓ} → ℕ → List (ℕ × A) → ℕ
hits q = sum_by (λ x. if x.0 == q then 1 else 0)

-- The signals given for an attempt, and those that a goroutine is about to give.
abbrev pub claims : ℕ → Publisher → ℕ
claims q s = hits q s.tasks + hits q s.signals

-- 1 if the attempt is decided, 0 if it is not or does not exist.
abbrev pub fired_at : ℕ → List PendingMessage → ℕ
fired_at q heap = elim (get_elem? heap q) [ none ↦ 0 | some m ↦ to_ℕ m.callback_fired ]

abbrev pub decided : DeliveryStats → ℕ
decided t =
    t.total_confirmed + t.total_returned + t.total_nacked + t.total_timed_out + t.total_orphaned

abbrev pub undecided : PendingMessage → ℕ
undecided m = if m.callback_fired then 0 else 1

pub record Books (s : Publisher) : Type 0 where
  pub claimed : (q : ℕ) → claims q s ≡ fired_at q s.heap
  pub counted : s.stats.total_published ≡ decided s.stats + sum_by undecided s.heap
