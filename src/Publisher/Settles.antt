-- ===== src/Publisher/Settles.antt =====
-- What every section under a pending message's lock keeps to: it decides the message at most once,
-- and its effects tell of that decision and of nothing else.
use go_rabbitmq.Base.{ℕ, suc, ◌+◌, ◌≡◌, String, Bool, true, false, List, [], ◌∷◌, arith}
use go_rabbitmq.Publisher.State.{PendingMessage, PublisherConfig, Effect, bump, note_failure, go}
use go_rabbitmq.Publisher.Handlers.{
  Locked, confirmation_locked, return_locked, grace_locked, timeout_locked, settle_orphan,
}

abbrev pub to_ℕ : Bool → ℕ
to_ℕ true = 1
to_ℕ false = 0

-- How many goroutines, and how many counters, a list of effects starts and advances.
abbrev pub goes : List Effect → ℕ
goes [] = 0
goes (bump c ∷ es) = goes es
goes (note_failure g r ∷ es) = goes es
goes (go t ∷ es) = suc (goes es)

abbrev pub bumps : List Effect → ℕ
bumps [] = 0
bumps (bump c ∷ es) = suc (bumps es)
bumps (note_failure g r ∷ es) = bumps es
bumps (go t ∷ es) = bumps es

-- `m` is the message before, `r` what the section made of it.
pub record Settles (m : PendingMessage) (r : Locked) : Type 0 where
  -- A goroutine is started exactly when the section decides the message.
  pub claims : goes r.1 + to_ℕ m.callback_fired ≡ to_ℕ r.0.callback_fired
  -- One counter advances with each goroutine.
  pub counts : bumps r.1 ≡ goes r.1
  -- Once decided, the outcome stands and nothing more happens.
  pub final :
      m.callback_fired ≡ true
      → (r.1 ≡ []) × (r.0.final_outcome ≡ m.final_outcome) × (r.0.final_error ≡ m.final_error)
  pub in_flight : r.0.in_flight ≡ m.in_flight
  pub message_id : r.0.message_id ≡ m.message_id
  pub key : r.0.key ≡ m.key

module _ (c : PublisherConfig) where
  pub confirmation-Settles :
      (ack : Bool) (m : PendingMessage) → Settles m (confirmation_locked c ack m)
  unfolding confirmation_locked
  confirmation-Settles ack m = ground arith

  pub return-Settles :
      (text : String) (code : ℕ) (m : PendingMessage) → Settles m (return_locked c text code m)
  unfolding return_locked
  return-Settles text code m = ground arith

  pub timeout-Settles : (tag : ℕ) (m : PendingMessage) → Settles m (timeout_locked c tag m)
  unfolding timeout_locked
  timeout-Settles tag m = ground arith

pub grace-Settles : (tag : ℕ) (m : PendingMessage) → Settles m (grace_locked tag m)
unfolding grace_locked
grace-Settles tag m = ground arith

pub orphan-Settles : (reason : String) (m : PendingMessage) → Settles m (settle_orphan reason m)
unfolding settle_orphan
orphan-Settles reason m = ground arith
