-- ===== src/Saga/Progress.antt =====
-- saga/saga.go: how a saga goes on after a completed step.
use go_rabbitmq.Base.{
  ◌≡◌, refl, sym, ap, subst, ◌∙◌, String, Bool, true, false, Option, none, some, List, [], ◌∷◌,
  ◌++◌, if◌then◌else◌, arith,
}
use go_rabbitmq.Base.Eq.{String_eq}
use go_rabbitmq.Base.Dict.{lookup}
use go_rabbitmq.Message.{Table}
use go_rabbitmq.Saga.State.{State, completed, Step, Saga}
use go_rabbitmq.Saga.Store.{
  loaded, store_error, Store, save_saga, update_saga_step, update_step, mark, concluded, with_state,
  step_updated,
}
use go_rabbitmq.Saga.Manager.{
  StepMessage, HandlerEnd, succeeds, Config, Manager, of_store, Result, ok, err, message_of,
  next_of, publish_step,
}
use go_rabbitmq.Saga.Handlers.{
  put_store, handle_step_message, run_step, step_ended, step_completed, after_completed,
}
use go_rabbitmq.Saga.Sending.{takes_all}
use go_rabbitmq.Saga.Compensation.{lookup-save_saga, update_saga_state-saved}

-- The saga with one step marked.
abbrev pub with_step : String → (Step → Step) → Saga → Saga
with_step id f g = record g { steps = (update_step id f g.steps).0 }

pub update_saga_step-marked :
    (id step_id : String) (status : State) (output : Table) (error : String) (g : Saga)
    (store : Store)
    → lookup id store ≡ some g
    → (update_step step_id (mark status output error) g.steps).1 ≡ true
    → let g' = concluded (with_step step_id (mark status output error) g) in
      update_saga_step id step_id status output error store ≡ (save_saga g' store, loaded g')
unfolding update_saga_step
update_saga_step-marked id step_id status output error g store h hit =
    ap (step_updated step_id (mark status output error) store) h ∙ rw hit refl

abbrev pub is_none : Option Step → Bool
is_none none = true
is_none (some p) = false

abbrev pub next_messages : Saga → Option Step → List StepMessage
next_messages g none = []
next_messages g (some p) = message_of g p ∷ []

-- The next step, if there is one, has been published; otherwise the saga is completed.
abbrev pub Advanced : String → Saga → Manager → Option Step → Manager × Result → Type 0
Advanced id g s o (t, result) =
    (result ≡ ok)
    × (lookup id t.store ≡ some (if is_none o then with_state completed g else g))
    × (t.step_queue ≡ next_messages g o ++ s.step_queue)
    × (t.compensation_queue ≡ s.compensation_queue)

pub concluded_id : (g : Saga) → (concluded g).id ≡ g.id
concluded_id g = ground arith

advanced :
    (id : String) (g : Saga) (t s : Manager) (o : Option Step)
    → g.id ≡ id
    → lookup id t.store ≡ some g
    → t.step_queue ≡ s.step_queue
    → t.compensation_queue ≡ s.compensation_queue
    → Advanced id g s o (after_completed takes_all id g t o)
unfolding publish_step
advanced id g t s (some p) own kept steps comps =
    (refl, kept, ap (λ q. message_of g p ∷ q) steps, comps)
advanced id g t s none own kept steps comps =
    subst
      (λ r.
        Advanced id g s none
          (elim r.1 [ store_error e ↦ (t, err (of_store e)) | loaded g' ↦ (put_store r.0 t, ok) ]))
      (sym (update_saga_state-saved id completed g t.store kept))
      (refl, lookup-save_saga id (with_state completed g) t.store own, steps, comps)

-- What a step message of a handler that succeeds comes to, once the step is stored.
pub completed_step-eq :
    (c : Config) (sends : StepMessage → Bool) (m : StepMessage) (handler : Saga → Step → HandlerEnd)
    (output : Table) (g : Saga) (s : Manager)
    → c.step_handlers m.step.action ≡ some handler
    → handler m.saga m.step ≡ succeeds output
    → lookup m.saga_id s.store ≡ some g
    → let f = mark completed output "" in
      let g' = concluded (with_step m.step_id f g) in
      (update_step m.step_id f g.steps).1 ≡ true
      → handle_step_message c sends (some m) s
        ≡ after_completed sends m.saga_id g' (put_store (save_saga g' s.store) s) (next_of g'.steps)
unfolding handle_step_message
completed_step-eq c sends m handler output g s has good stored hit =
    ap (run_step sends m s) has
    ∙ ap (step_ended sends m s) good
    ∙ ap (step_completed sends m s)
        (update_saga_step-marked m.saga_id m.step_id completed output "" g s.store stored hit)

-- A step whose handler succeeds, of a stored saga that has the step: the step is stored as completed
-- with the handler's output. Then, where the broker takes messages, the first step that has not run
-- is published; if there is none, the saga is stored as completed.
pub completed_step_advances :
    (c : Config) (m : StepMessage) (handler : Saga → Step → HandlerEnd) (output : Table) (g : Saga)
    (s : Manager)
    → c.step_handlers m.step.action ≡ some handler
    → handler m.saga m.step ≡ succeeds output
    → lookup m.saga_id s.store ≡ some g
    → g.id ≡ m.saga_id
    → let f = mark completed output "" in
      let g' = concluded (with_step m.step_id f g) in
      (update_step m.step_id f g.steps).1 ≡ true
      → Advanced m.saga_id g' s (next_of g'.steps) (handle_step_message c takes_all (some m) s)
completed_step_advances c m handler output g s has good stored same hit =
    let f = mark completed output "" in
    let g' = concluded (with_step m.step_id f g) in
    let own = concluded_id (with_step m.step_id f g) ∙ same in
    let t = put_store (save_saga g' s.store) s in
    let end = completed_step-eq c takes_all m handler output g s has good stored hit in
    subst (Advanced m.saga_id g' s (next_of g'.steps)) (sym end) (
      advanced m.saga_id g' t s (next_of g'.steps) own (lookup-save_saga m.saga_id g' s.store own)
        refl refl)
