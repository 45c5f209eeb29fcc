-- ===== src/Saga/Manager.antt =====
-- saga/saga.go: the manager. What it publishes is recorded, newest first.
use go_rabbitmq.Base.{String, Bool, false, Option, none, some, List, [], ◌∷◌, if◌then◌else◌}
use go_rabbitmq.Base.Eq.{String_eq}
use go_rabbitmq.Message.{Table}
use go_rabbitmq.Saga.State.{started, compensating, Step, Saga, is_started, is_completed}
use go_rabbitmq.Saga.Store.{StoreError, Loaded, loaded, store_error, Store, save_saga, load_saga}

-- A message on the step queue or on the compensation queue, with the copies that it carries.
pub record StepMessage : Type 0 where
  pub saga_id : String
  pub step_id : String
  pub step : Step
  pub saga : Saga

-- A handler's end: an error, success with what it left in the step's output, or a panic.
pub data HandlerEnd : Type 0 where
  errs : String → HandlerEnd
  succeeds : Table → HandlerEnd
  panics : HandlerEnd

-- The handlers by action; `none` is a missing one.
pub record Config : Type 0 where
  pub step_handlers : String → Option (Saga → Step → HandlerEnd)
  pub compensation_handlers : String → Option (Saga → Step → HandlerEnd)

pub record Manager : Type 0 where
  pub store : Store
  pub step_queue : List StepMessage
  pub compensation_queue : List StepMessage

pub data SagaError : Type 0 where
  of_store : StoreError → SagaError
  publish_error unmarshal_error : SagaError

pub data Result : Type 0 where
  ok : Result
  err : SagaError → Result

abbrev pub message_of : Saga → Step → StepMessage
message_of g p = record { saga_id = g.id; step_id = p.id; step = p; saga = g }

-- `sends` says whether the broker takes a message.
unfoldable pub publish_step : (StepMessage → Bool) → Saga → Step → Manager → Manager × Result
publish_step sends g p s =
    let m = message_of g p in
    if sends m then (record s { step_queue = m ∷ s.step_queue }, ok) else (s, err publish_error)

unfoldable pub publish_compensation :
    (StepMessage → Bool) → Saga → Step → Manager → Manager × Result
publish_compensation sends g p s =
    let m = message_of g p in
    if sends m
    then (record s { compensation_queue = m ∷ s.compensation_queue }, ok)
    else (s, err publish_error)

abbrev pub and_then : Manager × Result → (Manager → Manager × Result) → Manager × Result
and_then (s, ok) f = f s
and_then (s, err e) f = (s, err e)

-- The loop of `Compensate` over the steps, last first: the list is walked from its end.
unfoldable pub publish_compensations :
    (StepMessage → Bool) → Saga → List Step → Manager → Manager × Result
unfolding publish_compensation
publish_compensations sends g [] s = (s, ok)
publish_compensations sends g (p ∷ ps) s =
    and_then (publish_compensations sends g ps s)
      (λ s'. if is_completed p.status then publish_compensation sends g p s' else (s', ok))

abbrev pub compensate_loaded : (StepMessage → Bool) → Loaded → Manager → Manager × Result
compensate_loaded sends (store_error e) s = (s, err (of_store e))
compensate_loaded sends (loaded g) s =
    let g' = record g { state = compensating } in
    publish_compensations sends g' g'.steps (record s { store = save_saga g' s.store })

unfoldable pub compensate : (StepMessage → Bool) → String → Manager → Manager × Result
unfolding publish_compensations save_saga load_saga
compensate sends saga_id s = compensate_loaded sends (load_saga saga_id s.store) s

abbrev pub started_steps : List Step → List Step
started_steps [] = []
started_steps (p ∷ ps) = record p { status = started } ∷ started_steps ps

abbrev pub new_saga : String → String → List Step → Table → Saga
new_saga id name steps context = record {
  id = id;
  name = name;
  state = started;
  steps = started_steps steps;
  context = context;
  completed_at = false;
}

abbrev pub publish_first : (StepMessage → Bool) → Saga → List Step → Manager → Manager × Result
publish_first sends g [] s = (s, ok)
publish_first sends g (p ∷ ps) s = publish_step sends g p s

-- `Start`; the saga's ID and those of its steps are given by the caller, where the code draws the
-- missing ones.
unfoldable pub start :
    (StepMessage → Bool) → String → String → List Step → Table → Manager → Manager × Result
unfolding publish_step save_saga
start sends id name steps context s =
    let g = new_saga id name steps context in
    publish_first sends g g.steps (record s { store = save_saga g s.store })

abbrev pub next_of : List Step → Option Step
next_of [] = none
next_of (p ∷ ps) = let rest = next_of ps in if is_started p.status then some p else rest

unfoldable pub get_next_step : Saga → Option Step
get_next_step g = next_of g.steps
