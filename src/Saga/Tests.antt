-- ===== src/Saga/Tests.antt =====
-- An order saga of two steps, and the saga theorems on it.
use go_rabbitmq.Base.{
  ◌≡◌, refl, String, Bool, List, true, false, none, some, [], ◌∷◌, ◌++◌, if◌then◌else◌,
}
use go_rabbitmq.Base.Eq.{String_eq}
use go_rabbitmq.Base.Dict.{lookup}
use Prim.Native.String.{◌++◌ as string_append}
use go_rabbitmq.Saga.State.{
  State, started, completed, failed, compensating, compensated, Step, Saga,
}
use go_rabbitmq.Saga.Store.{save_saga, mark}
use go_rabbitmq.Saga.Manager.{
  StepMessage, Result, HandlerEnd, errs, succeeds, Config, Manager, ok, message_of, start,
  compensate,
}
use go_rabbitmq.Saga.Run.{Works, run}
use go_rabbitmq.Saga.Completion.{Finished, saga_completes}
use go_rabbitmq.Saga.Handlers.{handle_step_message, handle_compensation_message}
use go_rabbitmq.Saga.Sending.{takes_all, undone_steps, AreSent, Sends}
use go_rabbitmq.Saga.Compensation.{
  as_compensating, with_failed_step, compensate-queue, failed_step_compensates,
}
use go_rabbitmq.Saga.Progress.{with_step}
use go_rabbitmq.Saga.Next.{Continues, completed_step-Continues}
use go_rabbitmq.Saga.Ending.{unhandled_compensation}

abbrev step : String → State → Step
step id status = record {
  id = id;
  name = id;
  action = id;
  compensation = string_append "undo " id;
  input = none;
  output = none;
  status = status;
  error = "";
}

abbrev order_saga : State → State → State → Saga
order_saga state first second = record {
  id = "saga-1";
  name = "order";
  state = state;
  steps = step "reserve" first ∷ step "charge" second ∷ [];
  context = none;
  completed_at = false;
}

abbrev declines : Saga → Step → HandlerEnd
declines g p = errs "declined"

abbrev works : Saga → Step → HandlerEnd
works g p = succeeds none

abbrev shop : Config
shop = record {
  step_handlers = λ action. if String_eq.beq action "charge" then some declines else some works;
  compensation_handlers =
      λ action. if String_eq.beq action "undo reserve" then some works else none;
}

abbrev holding : Saga → Manager
holding g = record { store = ("saga-1", g) ∷ []; step_queue = []; compensation_queue = [] }

-- The first step is running, or has been completed and the second is running.
abbrev reserving : Saga
reserving = order_saga started started started

abbrev charging : Saga
charging = order_saga started completed started

abbrev undoing : Saga
undoing = order_saga compensating completed failed

abbrev stuck : Saga
stuck = order_saga compensating failed completed

held : (g : Saga) → lookup "saga-1" (holding g).store ≡ some g
unfolding lookup
held g = refl

-- A broker that takes no message about the first step.
abbrev picky : StepMessage → Bool
picky m = if String_eq.beq m.step_id "reserve" then false else true

compensate-queue_example :
    Sends picky
      (undone_steps (as_compensating undoing) undoing.steps)
      (record (holding undoing) {
        store = save_saga (as_compensating undoing) (holding undoing).store;
      })
      (compensate picky "saga-1" (holding undoing))
compensate-queue_example = compensate-queue picky "saga-1" undoing (holding undoing) (held undoing)

failed_step_compensates_example :
    let m = message_of charging (step "charge" started) in
    let g' = as_compensating (with_failed_step "charge" "declined" charging) in
    let (t, result) = handle_step_message shop picky (some m) (holding charging) in
    (result ≡ ok)
    × (lookup "saga-1" t.store ≡ some g')
    × ((sent : List StepMessage) × (r : Result) × (t.compensation_queue ≡ sent ++ [])
        × AreSent picky (undone_steps g' g'.steps) sent r)
    × (t.step_queue ≡ [])
failed_step_compensates_example =
    failed_step_compensates shop picky (message_of charging (step "charge" started)) declines
      "declined" charging (holding charging) refl refl (held charging) refl refl

completed_step-Continues_example :
    Continues takes_all "saga-1"
      (step "reserve" completed ∷ step "charge" started ∷ [])
      (holding reserving)
      (handle_step_message shop takes_all
        (some (message_of reserving (step "reserve" started)))
        (holding reserving))
completed_step-Continues_example =
    completed_step-Continues shop takes_all (message_of reserving (step "reserve" started)) works
      none reserving (holding reserving) [] (step "reserve" started) (step "charge" started ∷ [])
      refl refl (held reserving) refl refl refl tt

unhandled_compensation_example :
    let t =
      (handle_compensation_message shop
        (some (message_of stuck (step "charge" completed)))
        (holding stuck)).0 in
    let f =
      mark compensated none (string_append "no compensation handler found for: " "undo charge") in
    (lookup "saga-1" t.store ≡ some (record (with_step "charge" f stuck) { state = failed }))
    × (t.compensation_queue ≡ [])
    × (t.step_queue ≡ [])
unhandled_compensation_example =
    unhandled_compensation shop (message_of stuck (step "charge" completed)) stuck (holding stuck)
      refl (held stuck) refl refl refl

-- Every action works.
abbrev open_shop : Config
open_shop = record { step_handlers = λ action. some works; compensation_handlers = λ action. none }

always : (action : String) → Works open_shop action
always action = record { handler = works; output = λ g p. none; has = refl; good = λ g p. refl }

abbrev idle : Manager
idle = record { store = []; step_queue = []; compensation_queue = [] }

saga_completes_example : Finished open_shop "saga-1" idle (
    run 2 open_shop
      (start takes_all "saga-1" "order"
        (step "reserve" started ∷ step "charge" started ∷ [])
        none
        idle).0)
saga_completes_example =
    saga_completes open_shop "saga-1" "order" (step "reserve" started) (step "charge" started ∷ [])
      none idle refl ((refl, tt), (tt, tt)) (always "reserve", (always "charge", tt))
