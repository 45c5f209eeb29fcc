-- ===== src/Saga/Ending.antt =====
-- saga/saga.go: how the compensation of a saga ends.
use go_rabbitmq.Base.{◌≡◌, refl, ap, ◌∙◌, String, Bool, true, false, none, some}
use go_rabbitmq.Base.Eq.{String_eq}
use go_rabbitmq.Base.Dict.{lookup}
use Prim.Native.String.{◌++◌ as string_append}
use go_rabbitmq.Saga.State.{failed, compensated, Saga}
use go_rabbitmq.Saga.Store.{save_saga, update_step, mark, survey, with_state}
use go_rabbitmq.Saga.Manager.{StepMessage, HandlerEnd, errs, panics, Config, Manager}
use go_rabbitmq.Saga.Handlers.{
  put_store, handle_compensation_message, run_compensation, compensation_recorded,
}
use go_rabbitmq.Saga.Compensation.{lookup-save_saga}
use go_rabbitmq.Saga.Progress.{with_step, update_saga_step-marked}

-- What comes of the compensation of a saga's last completed step.
module _ (m : StepMessage) (g : Saga) (s : Manager) (stored : lookup m.saga_id s.store ≡ some g)
    (same : g.id ≡ m.saga_id) where
  recorded :
      (error : String)
      → (update_step m.step_id (mark compensated none error) g.steps).1 ≡ true
      → (survey (update_step m.step_id (mark compensated none error) g.steps).0 true).0 ≡ true
      → compensation_recorded m error s
        ≡ put_store
            (save_saga
              (with_state failed (with_step m.step_id (mark compensated none error) g))
              s.store)
            s
  recorded error hit bad =
      ap (λ r. put_store r.0 s)
        (update_saga_step-marked m.saga_id m.step_id compensated none error g s.store stored hit)
      ∙ rw bad refl

-- The error that is recorded with a compensated step.
abbrev pub recorded_error : HandlerEnd → String
recorded_error (errs e) = string_append "compensation failed: " e
recorded_error _ = ""

abbrev pub is_panic : HandlerEnd → Bool
is_panic panics = true
is_panic _ = false

-- A compensation without a handler, of a saga of which a step failed: the step is stored as compensated
-- and the saga as failed, whether or not steps are left to compensate, and nothing is published.
pub unhandled_compensation :
    (c : Config) (m : StepMessage) (g : Saga) (s : Manager)
    → c.compensation_handlers m.step.compensation ≡ none
    → lookup m.saga_id s.store ≡ some g
    → g.id ≡ m.saga_id
    → let f =
        mark compensated none
          (string_append "no compensation handler found for: " m.step.compensation) in
      let g' = with_step m.step_id f g in
      (update_step m.step_id f g.steps).1 ≡ true
      → (survey g'.steps true).0 ≡ true
      → let t = (handle_compensation_message c (some m) s).0 in
        (lookup m.saga_id t.store ≡ some (record g' { state = failed }))
        × (t.compensation_queue ≡ s.compensation_queue)
        × (t.step_queue ≡ s.step_queue)
unfolding handle_compensation_message
unhandled_compensation c m g s missing stored same hit bad =
    let error = string_append "no compensation handler found for: " m.step.compensation in
    let f = with_state failed (with_step m.step_id (mark compensated none error) g) in
    let end = ap (run_compensation m s) missing ∙ recorded m g s stored same error hit bad in
    (
      ap (λ u. lookup m.saga_id u.store) end ∙ lookup-save_saga m.saga_id f s.store same,
      ap (λ u. u.compensation_queue) end,
      ap (λ u. u.step_queue) end,
    )
