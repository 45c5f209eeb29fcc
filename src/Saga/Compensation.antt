-- ===== src/Saga/Compensation.antt =====
-- saga/saga.go: which steps a compensation reaches, and in which order.
use go_rabbitmq.Base.{
  ◌≡◌, refl, sym, ap, subst, ◌∙◌, String, Bool, true, none, some, List, [], ◌∷◌, ◌++◌, Bool-cases,
  inl, inr, arith,
}
use go_rabbitmq.Base.Eq.{String_eq}
use go_rabbitmq.Base.Dict.{lookup, lookup-insert}
use go_rabbitmq.Saga.State.{State, failed, compensating, Step, Saga, is_failed}
use go_rabbitmq.Saga.Store.{
  loaded, Store, found, save_saga, load_saga, update_saga_step, update_saga_state, update_step,
  mark, survey, with_state, step_updated, state_updated,
}
use go_rabbitmq.Saga.Manager.{
  StepMessage, HandlerEnd, errs, Config, Manager, Result, ok, compensate_loaded, compensate,
}
use go_rabbitmq.Saga.Sending.{undone_steps, AreSent, Sends, publish_compensations-Sends}
use go_rabbitmq.Saga.Handlers.{
  put_store, fail_saga, handle_step_message, run_step, step_ended, step_failed,
}

-- The saga that a compensation leaves in the store.
abbrev pub as_compensating : Saga → Saga
as_compensating g = record g { state = compensating }

-- Compensating a stored saga stores it so marked, and publishes a message for each completed step, from the
-- last to the first, and for no other, until the broker refuses one. It returns an error if the broker
-- does, and none if every message was taken.
pub compensate-queue :
    (sends : StepMessage → Bool) (id : String) (g : Saga) (s : Manager)
    → lookup id s.store ≡ some g
    → Sends sends
        (undone_steps (as_compensating g) g.steps)
        (record s { store = save_saga (as_compensating g) s.store })
        (compensate sends id s)
unfolding compensate load_saga
compensate-queue sends id g s h =
    subst
      (λ o.
        Sends sends (undone_steps (as_compensating g) g.steps)
          (record s { store = save_saga (as_compensating g) s.store })
          (compensate_loaded sends (found o) s))
      (sym h)
      (publish_compensations-Sends sends (as_compensating g) g.steps
        (record s { store = save_saga (as_compensating g) s.store }))

pub lookup-save_saga :
    (id : String) (g : Saga) (store : Store) → g.id ≡ id → lookup id (save_saga g store) ≡ some g
unfolding save_saga
lookup-save_saga id g store h =
    ground (arith, lookup-insert g.id id g store, String_eq.beq_iff g.id id)

pub update_saga_state-saved :
    (id : String) (x : State) (g : Saga) (store : Store)
    → lookup id store ≡ some g
    → update_saga_state id x store ≡ (save_saga (with_state x g) store, loaded (with_state x g))
unfolding update_saga_state
update_saga_state-saved id x g store h = ap (state_updated x store) h

-- A stored saga after `fail_saga`, which published the messages `sent`.
failed_saga : Saga → List StepMessage → Manager → Manager
failed_saga g sent s = record s {
  store = save_saga (as_compensating g) (save_saga (with_state failed g) s.store);
  compensation_queue = sent ++ s.compensation_queue;
}

-- The manager after a saga failed, of whose steps some were compensated.
abbrev FailsSaga : (StepMessage → Bool) → Saga → Manager → Manager → Type 0
FailsSaga sends g s t =
    (sent : List StepMessage) × (r : Result) × (t ≡ failed_saga g sent s)
    × AreSent sends (undone_steps (as_compensating g) g.steps) sent r

fail_saga-FailsSaga :
    (sends : StepMessage → Bool) (id : String) (g : Saga) (s : Manager)
    → g.id ≡ id
    → lookup id s.store ≡ some g
    → FailsSaga sends g s (fail_saga sends id s)
unfolding fail_saga failed_saga
fail_saga-FailsSaga sends id g s same h =
    let (sent, r, e, a) =
      compensate-queue sends id (with_state failed g)
        (put_store (save_saga (with_state failed g) s.store) s)
        (lookup-save_saga id (with_state failed g) s.store same) in
    (
      sent,
      r,
      ap (λ q. (compensate sends id (put_store q.0 s)).0)
            (update_saga_state-saved id failed g s.store h)
          ∙ ap (λ q. q.0) e,
      a,
    )

survey-failed :
    (id e : String) (ps : List Step) (b : Bool)
    → (update_step id (mark failed none e) ps).1 ≡ true
    → (survey (update_step id (mark failed none e) ps).0 b).0 ≡ true
survey-failed id e [] b h = h
survey-failed id e (p ∷ ps) b h =
    let rest = survey-failed id e ps in
    elim (Bool-cases (String_eq.beq p.id id)) [
      | inl here ↦ rw here refl
      | inr later ↦
          let hit : (update_step id (mark failed none e) ps).1 ≡ true = ground arith in
          rw later (elim (Bool-cases (is_failed p.status)) [
            | inl bad ↦ rw bad refl
            | inr good ↦ rw good (rest _ hit)
          ])
    ]

-- The saga with one step marked failed.
abbrev pub with_failed_step : String → String → Saga → Saga
with_failed_step id e g = record g {
  state = failed;
  steps = (update_step id (mark failed none e) g.steps).0;
}

update_saga_step-failed :
    (id step_id e : String) (g : Saga) (store : Store)
    → lookup id store ≡ some g
    → (update_step step_id (mark failed none e) g.steps).1 ≡ true
    → update_saga_step id step_id failed none e store
      ≡ (save_saga (with_failed_step step_id e g) store, loaded (with_failed_step step_id e g))
unfolding update_saga_step
update_saga_step-failed id step_id e g store h hit =
    ap (step_updated step_id (mark failed none e) store) h
    ∙ rw hit (rw (survey-failed step_id e g.steps true hit) refl)

processed :
    (c : Config) (sends : StepMessage → Bool) (m : StepMessage) (handler : Saga → Step → HandlerEnd)
    (e : String) (g : Saga) (s : Manager)
    → c.step_handlers m.step.action ≡ some handler
    → handler m.saga m.step ≡ errs e
    → lookup m.saga_id s.store ≡ some g
    → (update_step m.step_id (mark failed none e) g.steps).1 ≡ true
    → let f = with_failed_step m.step_id e g in
      handle_step_message c sends (some m) s
      ≡ (fail_saga sends m.saga_id (put_store (save_saga f s.store) s), ok)
unfolding handle_step_message
processed c sends m handler e g s has fails h hit =
    ap (run_step sends m s) has
    ∙ ap (step_ended sends m s) fails
    ∙ ap (step_failed sends m s) (update_saga_step-failed m.saga_id m.step_id e g s.store h hit)

-- A step whose handler returns an error, of a stored saga that has the step, on a broker that may refuse
-- any message: the message counts as processed, the step is stored as failed and the saga as
-- compensating, and a compensation is published for each step that is still completed, from the last to
-- the first, and for no other, until the broker refuses one. No further step is started.
pub failed_step_compensates :
    (c : Config) (sends : StepMessage → Bool) (m : StepMessage) (handler : Saga → Step → HandlerEnd)
    (e : String) (g : Saga) (s : Manager)
    → c.step_handlers m.step.action ≡ some handler
    → handler m.saga m.step ≡ errs e
    → lookup m.saga_id s.store ≡ some g
    → g.id ≡ m.saga_id
    → (update_step m.step_id (mark failed none e) g.steps).1 ≡ true
    → let g' = as_compensating (with_failed_step m.step_id e g) in
      let (t, result) = handle_step_message c sends (some m) s in
      (result ≡ ok)
      × (lookup m.saga_id t.store ≡ some g')
      × ((sent : List StepMessage) × (r : Result) × (t.compensation_queue
            ≡ sent ++ s.compensation_queue)
          × AreSent sends (undone_steps g' g'.steps) sent r)
      × (t.step_queue ≡ s.step_queue)
unfolding failed_saga
failed_step_compensates c sends m handler e g s has fails h same hit =
    let f = with_failed_step m.step_id e g in
    let (sent, r, end, a) =
      fail_saga-FailsSaga sends m.saga_id f (put_store (save_saga f s.store) s) same
        (lookup-save_saga m.saga_id f s.store same) in
    rw (processed c sends m handler e g s has fails h hit, end)
      (refl, lookup-save_saga m.saga_id (as_compensating f) _ same, (sent, r, refl, a), refl)
