-- ===== src/Saga/Handlers.antt =====
-- saga/saga.go: the handlers of the step queue and of the compensation queue. A message is what
-- `json.Unmarshal` makes of the delivery's body, `none` for an error. A handler runs alone: the
-- consumer's concurrency is 1.
use go_rabbitmq.Base.{String, Bool, true, false, Option, none, some, List, [], ◌∷◌, if◌then◌else◌}
use Prim.Native.String.{◌++◌}
use go_rabbitmq.Saga.State.{completed, failed, compensated, Step, Saga, is_completed}
use go_rabbitmq.Saga.Store.{
  Loaded, loaded, store_error, Store, load_saga, update_saga_step, update_saga_state,
}
use go_rabbitmq.Saga.Manager.{
  StepMessage, HandlerEnd, errs, succeeds, panics, Config, Manager, of_store, unmarshal_error,
  Result, ok, err, publish_step, compensate, get_next_step,
}

abbrev pub put_store : Store → Manager → Manager
put_store store s = record s { store = store }

-- The step has failed: the saga is marked failed and compensated; errors of both are only logged.
unfoldable pub fail_saga : (StepMessage → Bool) → String → Manager → Manager
unfolding update_saga_state compensate
fail_saga sends saga_id s =
    (compensate sends saga_id (put_store (update_saga_state saga_id failed s.store).0 s)).0

abbrev pub after_completed :
    (StepMessage → Bool) → String → Saga → Manager → Option Step → Manager × Result
after_completed sends saga_id g s (some p) = publish_step sends g p s
after_completed sends saga_id g s none =
    let (store, r) = update_saga_state saga_id completed s.store in
    elim r [ store_error e ↦ (s, err (of_store e)) | loaded g' ↦ (put_store store s, ok) ]

abbrev pub step_completed :
    (StepMessage → Bool) → StepMessage → Manager → Store × Loaded → Manager × Result
step_completed sends m s (store, store_error e) = (s, err (of_store e))
step_completed sends m s (store, loaded g) =
    after_completed sends m.saga_id g (put_store store s) (get_next_step g)

abbrev pub step_failed :
    (StepMessage → Bool) → StepMessage → Manager → Store × Loaded → Manager × Result
step_failed sends m s (store, store_error e) = (s, err (of_store e))
step_failed sends m s (store, loaded g) = (fail_saga sends m.saga_id (put_store store s), ok)

-- A panic is recovered, and the message counts as processed.
abbrev pub step_ended : (StepMessage → Bool) → StepMessage → Manager → HandlerEnd → Manager × Result
step_ended sends m s panics = (s, ok)
step_ended sends m s (errs e) =
    step_failed sends m s (update_saga_step m.saga_id m.step_id failed none e s.store)
step_ended sends m s (succeeds output) =
    step_completed sends m s (update_saga_step m.saga_id m.step_id completed output "" s.store)

-- Without a handler an error of the store is only logged.
abbrev pub run_step :
    (StepMessage → Bool)
    → StepMessage
    → Manager
    → Option (Saga → Step → HandlerEnd)
    → Manager × Result
run_step sends m s none =
    let store =
      (update_saga_step m.saga_id m.step_id failed none
        ("no handler found for action: " ++ m.step.action) s.store).0 in
    (fail_saga sends m.saga_id (put_store store s), ok)
run_step sends m s (some handler) = step_ended sends m s (handler m.saga m.step)

unfoldable pub handle_step_message :
    Config → (StepMessage → Bool) → Option StepMessage → Manager → Manager × Result
unfolding update_saga_step update_saga_state fail_saga publish_step get_next_step
handle_step_message c sends none s = (s, err unmarshal_error)
handle_step_message c sends (some m) s = run_step sends m s (c.step_handlers m.step.action)

-- `allCompensated`: no step is still completed.
abbrev pub all_compensated : List Step → Bool
all_compensated [] = true
all_compensated (p ∷ ps) =
    let rest = all_compensated ps in if is_completed p.status then false else rest

abbrev pub check_compensated : String → Manager → Loaded → Manager
check_compensated saga_id s (store_error e) = s
check_compensated saga_id s (loaded g) =
    if all_compensated g.steps
    then put_store (update_saga_state saga_id compensated s.store).0 s
    else s

abbrev pub compensation_recorded : StepMessage → String → Manager → Manager
compensation_recorded m error s =
    put_store (update_saga_step m.saga_id m.step_id compensated none error s.store).0 s

abbrev pub recorded_and_checked : StepMessage → String → Manager → Manager
recorded_and_checked m error s =
    let s' = compensation_recorded m error s in
    check_compensated m.saga_id s' (load_saga m.saga_id s'.store)

abbrev pub compensation_ended : StepMessage → Manager → HandlerEnd → Manager
compensation_ended m s panics = s
compensation_ended m s (errs e) = recorded_and_checked m ("compensation failed: " ++ e) s
compensation_ended m s (succeeds output) = recorded_and_checked m "" s

-- Without a handler the step counts as compensated, and the check is left out.
abbrev pub run_compensation : StepMessage → Manager → Option (Saga → Step → HandlerEnd) → Manager
run_compensation m s none =
    compensation_recorded m ("no compensation handler found for: " ++ m.step.compensation) s
run_compensation m s (some handler) = compensation_ended m s (handler m.saga m.step)

unfoldable pub handle_compensation_message :
    Config → Option StepMessage → Manager → Manager × Result
unfolding update_saga_step update_saga_state load_saga
handle_compensation_message c none s = (s, err unmarshal_error)
handle_compensation_message c (some m) s =
    (run_compensation m s (c.compensation_handlers m.step.compensation), ok)
