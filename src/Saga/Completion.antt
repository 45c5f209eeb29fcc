-- ===== src/Saga/Completion.antt =====
-- saga/saga.go: a whole saga, from Start until its last step.
use go_rabbitmq.Base.{
  ℕ, zero, suc, ◌≡◌, refl, sym, ap, subst, ◌∙◌, String, false, none, some, List, [], ◌∷◌, ◌++◌,
  length, All, All-append,
}
use go_rabbitmq.Base.Eq.{String_eq}
use go_rabbitmq.Base.Dict.{lookup}
use go_rabbitmq.Message.{Table}
use go_rabbitmq.Saga.State.{started, completed, Step, Saga}
use go_rabbitmq.Saga.Store.{save_saga, update_step, mark, concluded, with_state}
use go_rabbitmq.Saga.Manager.{
  StepMessage, Config, Manager, message_of, next_of, start, started_steps, new_saga, publish_step,
}
use go_rabbitmq.Saga.Handlers.{handle_step_message}
use go_rabbitmq.Saga.Sending.{takes_all}
use go_rabbitmq.Saga.Compensation.{lookup-save_saga}
use go_rabbitmq.Saga.Progress.{Advanced, completed_step_advances}
use go_rabbitmq.Saga.Run.{
  oldest, handle_oldest, Works, run, Absent, Distinct, Completed, Started, update_step-at,
  next_of-done, concluded-last, concluded-ahead, snoc_assoc, apart_after,
}

module _ (c : Config) (id : String) where
  -- The saga is stored as completed with all its steps, and nothing is left to do.
  abbrev pub Finished : Manager → Manager → Type 0
  Finished s t =
      (g : Saga) × (lookup id t.store ≡ some g)
      × (g.state ≡ completed)
      × Completed g.steps
      × (t.step_queue ≡ [])
      × (t.compensation_queue ≡ s.compensation_queue)

  -- One step of a saga, whose message is the only one.
  one_step :
      (before : List Step) (p : Step) (after : List Step) (g : Saga) (s : Manager)
      → g.steps ≡ before ++ p ∷ after
      → Absent p.id before
      → (w : Works c p.action) → lookup id s.store ≡ some g
      → g.id ≡ id
      → let g' =
          concluded (record g { steps = before ++ mark completed (w.output g p) "" p ∷ after }) in
        Advanced id g' s
          (next_of g'.steps)
          (handle_step_message c takes_all (some (message_of g p)) s)
  one_step before p after g s e a w stored same =
      let f = mark completed (w.output g p) "" in
      let updated = ap (update_step p.id f) e ∙ update_step-at f p before after a in
      let t = handle_step_message c takes_all (some (message_of g p)) s in
      subst
        (λ i.
          Advanced i (concluded (record g { steps = before ++ f p ∷ after })) s
            (next_of (concluded (record g { steps = before ++ f p ∷ after })).steps) t)
        same
        (subst
          (λ ps.
            Advanced g.id (concluded (record g { steps = ps })) s
              (next_of (concluded (record g { steps = ps })).steps) t)
          (ap (λ r. r.0) updated)
          (completed_step_advances c (message_of g p) w.handler (w.output g p) g s w.has
            (w.good g p) (ap (λ i. lookup i s.store) same ∙ stored) refl (ap (λ r. r.1) updated)))

  run_next :
      (fuel : ℕ) (m : StepMessage) (s : Manager)
      → s.step_queue ≡ m ∷ []
      → run (suc fuel) c s
        ≡ run fuel c (handle_step_message c takes_all (some m) (record s { step_queue = [] })).0
  unfolding run
  run_next fuel m s e = ap (λ q. handle_oldest (run fuel c) c s (oldest q)) e

  onward :
      (before : List Step) (p : Step) (after : List Step) (g : Saga) (s : Manager)
      → g.steps ≡ before ++ p ∷ after
      → Completed before
      → Started after
      → All (λ q. Absent q.id before) (p ∷ after)
      → Distinct (p ∷ after)
      → All (λ q. Works c q.action) (p ∷ after)
      → lookup id s.store ≡ some g
      → g.id ≡ id
      → s.step_queue ≡ message_of g p ∷ []
      → Finished s (run (length (p ∷ after)) c s)
  unfolding run
  onward before p [] g s e done ahead apart distinct works stored same queue =
      let fp = mark completed (works.0.output g p) "" p in
      let s' = record s { step_queue = [] } in
      let t = handle_step_message c takes_all (some (message_of g p)) s' in
      let g' = with_state completed (record g { steps = before ++ fp ∷ [] }) in
      let moved =
        subst (λ x. Advanced id x s' (next_of x.steps) t) (concluded-last g before fp done refl)
          (one_step before p [] g s' e apart.0 works.0 stored same) in
      let over : Advanced id g' s' none t =
        subst (λ o. Advanced id g' s' o t) (next_of-done before (fp ∷ []) done) moved in
      subst (Finished s) (sym (run_next zero (message_of g p) s queue)) (
        g',
        over.1,
        refl,
        All-append (λ d. d.status ≡ completed) before (fp ∷ []) done (refl, tt),
        over.2,
        over.3,
      )
  onward before p (q ∷ after) g s e done ahead apart distinct works stored same queue =
      let fp = mark completed (works.0.output g p) "" p in
      let s' = record s { step_queue = [] } in
      let t = handle_step_message c takes_all (some (message_of g p)) s' in
      let g' = record g { steps = before ++ fp ∷ q ∷ after } in
      let moved =
        subst (λ x. Advanced id x s' (next_of x.steps) t)
          (concluded-ahead g before fp q after done refl ahead)
          (one_step before p (q ∷ after) g s' e apart.0 works.0 stored same) in
      let first : next_of (fp ∷ q ∷ after) ≡ some q = rw ahead.0 refl in
      let going : Advanced id g' s' (some q) t =
        subst (λ o. Advanced id g' s' o t) (next_of-done before (fp ∷ q ∷ after) done ∙ first)
          moved in
      let rest =
        onward (before ++ fp ∷ []) q after g' t.0 (snoc_assoc before fp (q ∷ after))
          (All-append (λ d. d.status ≡ completed) before (fp ∷ []) done (refl, tt)) ahead.1
          (apart_after before fp (q ∷ after) apart.1 distinct.0) distinct.1 works.1 going.1 same
          going.2 in
      subst (Finished s) (sym (run_next (length (q ∷ after)) (message_of g p) s queue))
        (rest.0, rest.1, rest.2, rest.3, rest.4, rest.5 ∙ going.3)

started_steps-Started : (ps : List Step) → Started (started_steps ps)
started_steps-Started [] = tt
started_steps-Started (p ∷ ps) = (refl, started_steps-Started ps)

-- What a step's status does not matter for, `Start` keeps.
started_keeps :
    (P : Step → Type 0)
    → ((p : Step) → P p → P (record p { status = started }))
    → (ps : List Step) → All P ps
    → All P (started_steps ps)
started_keeps P keep [] a = tt
started_keeps P keep (p ∷ ps) a = (keep p a.0, started_keeps P keep ps a.1)

started-Distinct : (ps : List Step) → Distinct ps → Distinct (started_steps ps)
started-Distinct [] d = tt
started-Distinct (p ∷ ps) d = (
  started_keeps (λ q. String_eq.beq p.id q.id ≡ false) (λ q h. h) ps d.0,
  started-Distinct ps d.1,
)

none_before : (ps : List Step) → All (λ q. Absent q.id []) ps
none_before [] = tt
none_before (p ∷ ps) = (tt, none_before ps)

length-started_steps : (ps : List Step) → length (started_steps ps) ≡ length ps
length-started_steps [] = refl
length-started_steps (p ∷ ps) = ap suc (length-started_steps ps)

-- A saga of at least one step, with different identifiers and handlers that never fail: after Start and
-- as many messages as it has steps, where the broker takes messages and the step queue was empty, the
-- saga is stored as completed, all its steps are completed, no step message is left, and nothing has
-- been compensated.
pub saga_completes :
    (c : Config) (id name : String) (p : Step) (ps : List Step) (context : Table) (s : Manager)
    → s.step_queue ≡ []
    → Distinct (p ∷ ps)
    → All (λ q. Works c q.action) (p ∷ ps)
    → Finished c id s (run (length (p ∷ ps)) c (start takes_all id name (p ∷ ps) context s).0)
unfolding start publish_step
saga_completes c id name p ps context s empty distinct works =
    let g = new_saga id name (p ∷ ps) context in
    let first = record p { status = started } in
    let t = record s {
      store = save_saga g s.store;
      step_queue = message_of g first ∷ s.step_queue;
    } in
    subst (λ n. Finished c id s (run n c t)) (length-started_steps (p ∷ ps))
      (onward c id [] first (started_steps ps) g t refl tt (started_steps-Started ps)
        (none_before (started_steps (p ∷ ps))) (started-Distinct (p ∷ ps) distinct)
        (started_keeps (λ q. Works c q.action) (λ q w. w) (p ∷ ps) works)
        (lookup-save_saga id g s.store refl) refl (ap (λ q. message_of g first ∷ q) empty))
