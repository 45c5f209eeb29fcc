-- ===== src/Saga/Next.antt =====
-- saga/saga.go: which step follows a completed one.
use go_rabbitmq.Base.{
  ◌≡◌, ◌⊎◌, inl, inr, refl, sym, ap, subst, ◌∙◌, String, Bool, true, false, none, some, List, [],
  ◌∷◌, ◌++◌, All, Bool-cases, arith,
}
use go_rabbitmq.Base.Eq.{String_eq}
use go_rabbitmq.Base.Dict.{lookup}
use go_rabbitmq.Message.{Table}
use go_rabbitmq.Saga.State.{completed, Step, Saga, is_started}
use go_rabbitmq.Saga.Store.{
  loaded, store_error, save_saga, update_step, mark, concluded, with_state,
}
use go_rabbitmq.Saga.Manager.{
  StepMessage, HandlerEnd, succeeds, Config, Manager, of_store, publish_error, Result, ok, err,
  message_of, next_of, publish_step,
}
use go_rabbitmq.Saga.Handlers.{put_store, handle_step_message, after_completed}
use go_rabbitmq.Saga.Compensation.{lookup-save_saga, update_saga_state-saved}
use go_rabbitmq.Saga.Progress.{with_step, concluded_id, completed_step-eq}
use go_rabbitmq.Saga.Run.{Absent, update_step-at}

-- None of the steps is in the state `started`.
abbrev pub NoneStarted : List Step → Type 0
NoneStarted = All (λ p. is_started p.status ≡ false)

-- `q` is the first of the steps that is.
abbrev pub IsFirst : List Step → Step → Type 0
IsFirst ps q =
    (before : List Step) × (after : List Step) × (ps ≡ before ++ q ∷ after)
    × NoneStarted before
    × (is_started q.status ≡ true)

next_of-cases :
    (ps : List Step)
    → ((next_of ps ≡ none) × NoneStarted ps) ⊎ ((q : Step) × (next_of ps ≡ some q) × IsFirst ps q)
next_of-cases [] = inl (refl, tt)
next_of-cases (p ∷ ps) = elim (Bool-cases (is_started p.status)) [
  | inl here ↦ inr (p, rw here refl, ([], ps, refl, tt, here))
  | inr other ↦ elim (next_of-cases ps) [
    | inl (nothing, all) ↦ inl (rw other nothing, (other, all))
    | inr (q, found_it, (before, after, split, apart, first)) ↦
        inr (
          q,
          rw other found_it,
          (p ∷ before, after, ap (λ qs. p ∷ qs) split, (other, apart), first),
        )
  ]
]

-- After a step of a saga, whose steps are then `steps`: the saga is stored with them. The first that has not
-- run is published, with the saga as it is stored, or the broker refuses it, which is the error;
-- if there is none, the saga is stored as completed.
abbrev pub Continues :
    (StepMessage → Bool) → String → List Step → Manager → Manager × Result → Type 0
Continues sends id steps s (t, result) =
    (g : Saga) × (lookup id t.store ≡ some g)
    × (g.steps ≡ steps)
    × (t.compensation_queue ≡ s.compensation_queue)
    × (((q : Step) × IsFirst steps q
          × (((sends (message_of g q) ≡ true)
                × (t.step_queue ≡ message_of g q ∷ s.step_queue)
                × (result ≡ ok))
              ⊎ ((sends (message_of g q) ≡ false)
                  × (t.step_queue ≡ s.step_queue)
                  × (result ≡ err publish_error))))
        ⊎ (NoneStarted steps
            × (g.state ≡ completed)
            × (t.step_queue ≡ s.step_queue)
            × (result ≡ ok)))

concluded_steps : (g : Saga) → (concluded g).steps ≡ g.steps
concluded_steps g = ground arith

module _ (sends : StepMessage → Bool) (id : String) (g : Saga) (t : Manager) (own : g.id ≡ id)
    (kept : lookup id t.store ≡ some g) where
  publishes_next :
      (q : Step)
      → IsFirst g.steps q
      → Continues sends id g.steps t (after_completed sends id g t (some q))
  unfolding publish_step
  publishes_next q first = elim (Bool-cases (sends (message_of g q))) [
    | inl taken ↦ rw taken (g, kept, refl, refl, inl (q, first, inl (taken, refl, refl)))
    | inr refused ↦ rw refused (g, kept, refl, refl, inl (q, first, inr (refused, refl, refl)))
  ]

  completes_saga :
      NoneStarted g.steps → Continues sends id g.steps t (after_completed sends id g t none)
  completes_saga all =
      subst
        (λ r.
          Continues sends id g.steps t (elim r.1 [
            | store_error e ↦ (t, err (of_store e))
            | loaded g' ↦ (put_store r.0 t, ok)
          ]))
        (sym (update_saga_state-saved id completed g t.store kept))
        (
          with_state completed g,
          lookup-save_saga id (with_state completed g) t.store own,
          refl,
          refl,
          inr (all, refl, refl, refl),
        )

  after_completed-Continues :
      Continues sends id g.steps t (after_completed sends id g t (next_of g.steps))
  after_completed-Continues = elim (next_of-cases g.steps) [
    | inl (nothing, all) ↦
        subst (λ o. Continues sends id g.steps t (after_completed sends id g t o)) (sym nothing)
          (completes_saga all)
    | inr (q, found_it, first) ↦
        subst (λ o. Continues sends id g.steps t (after_completed sends id g t o)) (sym found_it)
          (publishes_next q first)
  ]

-- A step message whose handler succeeds, of a stored saga in which the step stands, first of its identifier, on a
-- broker that may refuse any message: that step is stored as completed with the handler's output
-- and without an error text, and every other step as it was. Then the first step of the stored
-- saga that has not run is published, with the saga as stored; if the broker refuses it, that is the error. If every step
-- has run, the saga is stored as completed and nothing is published. No compensation is.
pub completed_step-Continues :
    (c : Config) (sends : StepMessage → Bool) (m : StepMessage) (handler : Saga → Step → HandlerEnd)
    (output : Table) (g : Saga) (s : Manager) (before : List Step) (p : Step) (after : List Step)
    → c.step_handlers m.step.action ≡ some handler
    → handler m.saga m.step ≡ succeeds output
    → lookup m.saga_id s.store ≡ some g
    → g.id ≡ m.saga_id
    → g.steps ≡ before ++ p ∷ after
    → m.step_id ≡ p.id
    → Absent p.id before
    → Continues sends m.saga_id
        (before ++ record p { status = completed; output = output; error = "" } ∷ after)
        s
        (handle_step_message c sends (some m) s)
completed_step-Continues c sends m handler output g s before p after has good stored own split at
      apart =
    let f = mark completed output "" in
    let updated =
      ap (λ i. update_step i f g.steps) at
      ∙ ap (update_step p.id f) split
      ∙ update_step-at f p before after apart in
    let g' = concluded (with_step m.step_id f g) in
    let t = put_store (save_saga g' s.store) s in
    let same = concluded_id (with_step m.step_id f g) ∙ own in
    subst (Continues sends m.saga_id (before ++ f p ∷ after) s)
      (sym (completed_step-eq c sends m handler output g s has good stored (ap (λ r. r.1) updated)))
      (subst
        (λ ps.
          Continues sends m.saga_id ps s (after_completed sends m.saga_id g' t (next_of g'.steps)))
        (concluded_steps (with_step m.step_id f g) ∙ ap (λ r. r.0) updated)
        (after_completed-Continues sends m.saga_id g' t same
          (lookup-save_saga m.saga_id g' s.store same)))
