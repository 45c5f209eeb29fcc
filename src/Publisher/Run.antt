-- ===== src/Publisher/Run.antt =====
-- Delivery assurance as a transition system: the publisher, the confirm and return readers, timers
-- and goroutines in any order. A handler looks a message up and then waits for its lock, so besides
-- the whole handlers there is a step for each locked section, at any address.
pub mod Signals
use go_rabbitmq.Base.{
  ℕ, zero, suc, ◌+◌, ◌≤◌, ◌≡◌, refl, String, Bool, true, false, Option, none, some, List, [], ◌∷◌,
  ◌++◌, arith, get_elem?, sum_by, ap,
}
use go_rabbitmq.PendingMap.{new_sharded_pending_map, load_by_delivery_tag}
use go_rabbitmq.Publisher.State.{
  no_error, armed_grace, PendingMessage, PublisherConfig, ConfirmGeneration, Task, Publisher,
}
use go_rabbitmq.Publisher.Handlers.{
  attempt, confirmation_locked, return_locked, grace_locked, timeout_locked, settle_orphan,
}
use go_rabbitmq.Publisher.Effects.{
  locked_at, note_response, handle_confirmation, handle_return,
  handle_mandatory_grace_period_expired, handle_timeout, mark_dead, fail_orphans,
}
use go_rabbitmq.Publisher.Track.{
  register, send_failed, sent, with_current, send_done, install_confirm_generation, run_task,
}
use go_rabbitmq.Publisher.Settles.{
  confirmation-Settles, return-Settles, timeout-Settles, grace-Settles, orphan-Settles, to_ℕ,
}
use go_rabbitmq.Publisher.Books.{hits, claims, fired_at, decided, undecided, Books}
use go_rabbitmq.Publisher.Books.Effects.{locked_at-Books}
use go_rabbitmq.Publisher.Books.Handlers.{
  note_response-Books, handle_confirmation-Books, handle_return-Books, handle_grace-Books,
  handle_timeout-Books, mark_dead-Books, fail_orphans-Books, install-Books,
}
use go_rabbitmq.Publisher.Books.Entries.{with_current-Books, register-Books}
use go_rabbitmq.Publisher.Books.Sends.{run_task-Books, SendUndecided, send_failed-Books, sent-Books}

-- `initDeliveryAssurance`: no message, no goroutine, and a first channel.
unfoldable pub init_delivery_assurance : PublisherConfig → Publisher
init_delivery_assurance c = install_confirm_generation (record {
  config = c;
  closed = false;
  generations = [];
  confirm_gen = 0;
  heap = [];
  pending_messages = new_sharded_pending_map;
  stats = record {
    total_published = 0;
    total_confirmed = 0;
    total_returned = 0;
    total_nacked = 0;
    total_timed_out = 0;
    total_orphaned = 0;
    pending_messages = 0;
  };
  failures_since_response = 0;
  last_err = no_error;
  sending = none;
  tasks = [];
  signals = [];
})

abbrev pub close_channel : ConfirmGeneration → ConfirmGeneration
close_channel gen = record gen { ch_closed = true }

-- The steps. `Fails` says in which states a send may fail.
pub data Step (Fails : Publisher → Type 0) (s : Publisher) : Publisher → Type 0 where
  -- A publish takes `publishMu`, so none is in progress; so does a refresh.
  registers :
      (ctx_error : Bool) (timeout : ℕ) (m : PendingMessage)
      → s.sending ≡ none
      → Step Fails s (register ctx_error timeout (attempt m) s).0
  send_fails : Fails s → Step Fails s (send_done send_failed s)
  send_succeeds : (channel_tag : Option ℕ) → Step Fails s (send_done (sent channel_tag) s)
  confirms :
      (generation tag : ℕ) (ack : Bool) → Step Fails s (handle_confirmation generation tag ack s)
  returns : (id text : String) (code : ℕ) → Step Fails s (handle_return id text code s)
  times_out : (key : ℕ) → Step Fails s (handle_timeout key s)
  confirms_at :
      (ack : Bool) (p : ℕ) → Step Fails s (locked_at (confirmation_locked s.config ack) p s)
  returns_at :
      (text : String) (code p : ℕ) → Step Fails s (locked_at (return_locked s.config text code) p s)
  times_out_at : (key p : ℕ) → Step Fails s (locked_at (timeout_locked s.config key) p s)
  -- The grace timer runs only after the message's own grace period was started.
  grace_expires :
      (key p : ℕ) (m : PendingMessage)
      → get_elem? s.heap p ≡ some m
      → m.timeout_timer ≡ armed_grace key
      → Step Fails s (locked_at (grace_locked key) p s)
  grace_handled :
      (key p : ℕ) (m : PendingMessage)
      → load_by_delivery_tag key s.pending_messages ≡ some p
      → get_elem? s.heap p ≡ some m
      → m.timeout_timer ≡ armed_grace key
      → Step Fails s (handle_mandatory_grace_period_expired key s)
  orphans : (g : ℕ) (reason : String) → Step Fails s (fail_orphans g reason s)
  dies : (g : ℕ) → Step Fails s (mark_dead g s)
  orphans_at : (reason : String) (p : ℕ) → Step Fails s (locked_at (settle_orphan reason) p s)
  channel_closes : Step Fails s (with_current close_channel s)
  installs : s.sending ≡ none → s.closed ≡ false → Step Fails s (install_confirm_generation s)
  runs :
      (p : ℕ) (t : Task) (xs ys : List (ℕ × Task))
      → s.tasks ≡ xs ++ (p, t) ∷ ys
      → Step Fails s (run_task p t (record s { tasks = xs ++ ys }))
  closes : Step Fails s (record s { closed = true })

pub data Reach (Fails : Publisher → Type 0) (s : Publisher) : Publisher → Type 0 where
  here : Reach Fails s s
  next : {t u : Publisher} → Reach Fails s t → Step Fails t u → Reach Fails s u

pub init-Books : (c : PublisherConfig) → Books (init_delivery_assurance c)
unfolding init_delivery_assurance
init-Books c = install-Books _ (record { claimed = λ q. omega arith; counted = omega arith })

Step-Books : (s : Publisher) {t : Publisher} → Step SendUndecided s t → Books s → Books t
Step-Books s (registers ctx timeout m e) b = register-Books ctx timeout m s b
Step-Books s (send_fails h) b = send_failed-Books s h b
Step-Books s (send_succeeds o) b = sent-Books o s b
Step-Books s (confirms g tag ack) b = handle_confirmation-Books g tag ack s b
Step-Books s (returns id text code) b = handle_return-Books id text code s b
Step-Books s (times_out key) b = handle_timeout-Books key s b
Step-Books s (confirms_at ack p) b = locked_at-Books _ (confirmation-Settles s.config ack) p s b
Step-Books s (returns_at text code p) b =
    locked_at-Books _ (return-Settles s.config text code) p s b
Step-Books s (times_out_at key p) b = locked_at-Books _ (timeout-Settles s.config key) p s b
Step-Books s (grace_expires key p m e h) b = locked_at-Books _ (grace-Settles key) p s b
Step-Books s (grace_handled key p m o e h) b = handle_grace-Books key s b
Step-Books s (orphans g reason) b = fail_orphans-Books g reason s b
Step-Books s (dies g) b = mark_dead-Books g s b
Step-Books s (orphans_at reason p) b = locked_at-Books _ (orphan-Settles reason) p s b
Step-Books s channel_closes b = with_current-Books close_channel s b
Step-Books s (installs e h) b = install-Books s b
Step-Books s (runs p t xs ys e) b = run_task-Books p t xs ys s e b
Step-Books s closes b = record { claimed = b.claimed; counted = b.counted }

pub Reach-Books : (s : Publisher) {t : Publisher} → Books s → Reach SendUndecided s t → Books t
Reach-Books s b here = b
Reach-Books s b (next {t} r st) = Step-Books t st (Reach-Books s b r)
