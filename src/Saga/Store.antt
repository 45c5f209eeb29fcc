-- ===== src/Saga/Store.antt =====
-- saga/saga.go: InMemoryStore. It shares its sagas with its callers by pointer; each caller writes back
-- what it changes, so the store holds values here. The mutex is not modelled: each method is one step.
use go_rabbitmq.Base.{
  String, Bool, true, false, not, Option, none, some, List, [], ◌∷◌, if◌then◌else◌,
}
use go_rabbitmq.Base.Eq.{String_eq}
use go_rabbitmq.Base.Dict.{lookup, insert, delete}
use go_rabbitmq.Message.{Table}
use go_rabbitmq.Saga.State.{
  State, completed, failed, Step, Saga, is_started, is_completed, is_failed, is_compensating,
}

pub data StoreError : Type 0 where
  saga_not_found step_not_found : StoreError

pub data Loaded : Type 0 where
  loaded : Saga → Loaded
  store_error : StoreError → Loaded

abbrev pub Store : Type 0
Store = List (String × Saga)

unfoldable pub save_saga : Saga → Store → Store
unfolding insert
save_saga g store = insert g.id g store

abbrev pub found : Option Saga → Loaded
found none = store_error saga_not_found
found (some g) = loaded g

unfoldable pub load_saga : String → Store → Loaded
unfolding lookup
load_saga id store = found (lookup id store)

unfoldable pub delete_saga : String → Store → Store
unfolding delete
delete_saga id store = delete id store

abbrev pub is_active : Saga → Bool
is_active g = if is_started g.state then true else is_compensating g.state

-- Go visits the map in any order; here it is the list's.
unfoldable pub list_active_sagas : Store → List Saga
list_active_sagas [] = []
list_active_sagas ((id, g) ∷ store) =
    let rest = list_active_sagas store in if is_active g then g ∷ rest else rest

abbrev pub mark : State → Table → String → Step → Step
mark status output error p = record p { status = status; output = output; error = error }

-- The loop over the steps up to the first with the ID, and whether there is one.
abbrev pub update_step : String → (Step → Step) → List Step → List Step × Bool
update_step id f [] = ([], false)
update_step id f (p ∷ ps) =
    let rest = update_step id f ps in
    if String_eq.beq p.id id then (f p ∷ ps, true) else (p ∷ rest.0, rest.1)

-- `anyFailed` and `allCompleted` after the loop, which ends at a failure.
abbrev pub survey : List Step → Bool → Bool × Bool
survey [] all_completed = (false, all_completed)
survey (p ∷ ps) all_completed =
    let rest = survey ps (if not (is_completed p.status) then false else all_completed) in
    if is_failed p.status then (true, all_completed) else rest

abbrev pub with_state : State → Saga → Saga
with_state s g =
    if is_completed s then record g { state = s; completed_at = true } else record g { state = s }

abbrev pub concluded : Saga → Saga
concluded g =
    let (any_failed, all_completed) = survey g.steps true in
    if any_failed then with_state failed g else if all_completed then with_state completed g else g

abbrev pub step_updated : String → (Step → Step) → Store → Option Saga → Store × Loaded
step_updated step_id f store none = (store, store_error saga_not_found)
step_updated step_id f store (some g) =
    let (steps, found_it) = update_step step_id f g.steps in
    if not found_it
    then (store, store_error step_not_found)
    else let g' = concluded (record g { steps = steps }) in (save_saga g' store, loaded g')

unfoldable pub update_saga_step : String → String → State → Table → String → Store → Store × Loaded
unfolding save_saga lookup
update_saga_step saga_id step_id status output error store =
    step_updated step_id (mark status output error) store (lookup saga_id store)

abbrev pub state_updated : State → Store → Option Saga → Store × Loaded
state_updated s store none = (store, store_error saga_not_found)
state_updated s store (some g) = let g' = with_state s g in (save_saga g' store, loaded g')

unfoldable pub update_saga_state : String → State → Store → Store × Loaded
unfolding save_saga lookup
update_saga_state saga_id s store = state_updated s store (lookup saga_id store)
