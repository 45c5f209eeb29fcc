-- ===== src/Saga/Run.antt =====
-- saga/saga.go: the step queue's consumer, and the steps of a saga in the middle of its run.
use go_rabbitmq.Base.{
  ℕ, zero, suc, ◌≡◌, refl, ap, String, Bool, true, false, Option, none, some, List, [], ◌∷◌, ◌++◌,
  All, All-append, arith,
}
use go_rabbitmq.Base.Eq.{String_eq}
use go_rabbitmq.Message.{Table}
use go_rabbitmq.Saga.State.{started, completed, Step, Saga}
use go_rabbitmq.Saga.Store.{update_step, survey, concluded, with_state}
use go_rabbitmq.Saga.Manager.{StepMessage, HandlerEnd, succeeds, Config, Manager, next_of}
use go_rabbitmq.Saga.Handlers.{handle_step_message}
use go_rabbitmq.Saga.Sending.{takes_all}

-- The oldest message of a queue, and the others.
abbrev pub oldest : List StepMessage → Option (StepMessage × List StepMessage)
oldest [] = none
oldest (m ∷ ms) = elim (oldest ms) [ none ↦ some (m, []) | some (m', rest) ↦ some (m', m ∷ rest) ]

abbrev pub handle_oldest :
    (Manager → Manager) → Config → Manager → Option (StepMessage × List StepMessage) → Manager
handle_oldest later c s none = s
handle_oldest later c s (some (m, ms)) =
    later (handle_step_message c takes_all (some m) (record s { step_queue = ms })).0

-- The step consumer, on as many messages as there is fuel.
unfoldable pub run : ℕ → Config → Manager → Manager
run zero c s = s
run (suc fuel) c s = handle_oldest (run fuel c) c s (oldest s.step_queue)

-- The action has a handler that never fails.
pub record Works (c : Config) (action : String) : Type 0 where
  pub handler : Saga → Step → HandlerEnd
  pub output : Saga → Step → Table
  pub has : c.step_handlers action ≡ some handler
  pub good : (g : Saga) (p : Step) → handler g p ≡ succeeds (output g p)

abbrev pub Absent : String → List Step → Type 0
Absent id = All (λ q. String_eq.beq q.id id ≡ false)

abbrev pub Distinct : List Step → Type 0
Distinct [] = Unit
Distinct (p ∷ ps) = All (λ q. String_eq.beq p.id q.id ≡ false) ps × Distinct ps

abbrev pub Completed : List Step → Type 0
Completed = All (λ q. q.status ≡ completed)

abbrev pub Started : List Step → Type 0
Started = All (λ q. q.status ≡ started)

pub update_step-at :
    (f : Step → Step) (p : Step) (before after : List Step)
    → Absent p.id before
    → update_step p.id f (before ++ p ∷ after) ≡ (before ++ f p ∷ after, true)
update_step-at f p [] after a =
    let self : String_eq.beq p.id p.id ≡ true = ground (arith, String_eq.beq_iff p.id p.id) in
    rw self refl
update_step-at f p (q ∷ before) after a = rw a.0 (rw (update_step-at f p before after a.1) refl)

survey-done : (ps qs : List Step) (b : Bool) → Completed ps → survey (ps ++ qs) b ≡ survey qs b
survey-done [] qs b a = refl
survey-done (p ∷ ps) qs b a = rw a.0 (survey-done ps qs b a.1)

pub next_of-done : (ps qs : List Step) → Completed ps → next_of (ps ++ qs) ≡ next_of qs
next_of-done [] qs a = refl
next_of-done (p ∷ ps) qs a = rw a.0 (next_of-done ps qs a.1)

survey-ahead : (ps : List Step) → Started ps → survey ps false ≡ (false, false)
survey-ahead [] a = refl
survey-ahead (p ∷ ps) a = rw a.0 (survey-ahead ps a.1)

pub concluded-last :
    (g : Saga) (before : List Step) (p : Step)
    → Completed before
    → p.status ≡ completed
    → concluded (record g { steps = before ++ p ∷ [] })
      ≡ with_state completed (record g { steps = before ++ p ∷ [] })
concluded-last g before p a e = rw (survey-done before (p ∷ []) true a) (rw e refl)

pub concluded-ahead :
    (g : Saga) (before : List Step) (p q : Step) (after : List Step)
    → Completed before
    → p.status ≡ completed
    → Started (q ∷ after)
    → concluded (record g { steps = before ++ p ∷ q ∷ after })
      ≡ record g { steps = before ++ p ∷ q ∷ after }
concluded-ahead g before p q after a e b =
    rw (survey-done before (p ∷ q ∷ after) true a) (rw (e, b.0) (rw (survey-ahead after b.1) refl))

pub snoc_assoc :
    (before : List Step) (p : Step) (after : List Step)
    → before ++ p ∷ after ≡ (before ++ p ∷ []) ++ after
snoc_assoc [] p after = refl
snoc_assoc (q ∷ before) p after = ap (λ ps. q ∷ ps) (snoc_assoc before p after)

pub apart_after :
    (before : List Step) (p : Step) (after : List Step)
    → All (λ q. Absent q.id before) after
    → All (λ q. String_eq.beq p.id q.id ≡ false) after
    → All (λ q. Absent q.id (before ++ p ∷ [])) after
apart_after before p [] a d = tt
apart_after before p (q ∷ after) a d = (
  All-append (λ d. String_eq.beq d.id q.id ≡ false) before (p ∷ []) a.0 (d.0, tt),
  apart_after before p after a.1 d.1,
)
