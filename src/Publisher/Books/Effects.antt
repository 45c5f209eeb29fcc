-- ===== src/Publisher/Books/Effects.antt =====
-- The effects of a locked section, and the section itself, keep the books.
use go_rabbitmq.Base.{
  ℕ, ◌+◌, ◌≡◌, ◌∙◌, ap, refl, some, List, [], ◌∷◌, ◌==◌, arith, if◌then◌else◌, get_elem?, set,
  sum_by-set, get_elem?-set_self, get_elem?-set_ne, Option-cases, inl, inr,
}
use go_rabbitmq.Publisher.State.{
  ErrorText, PendingMessage, total_confirmed, Effect, bump, note_failure, go, Publisher,
}
use go_rabbitmq.Publisher.Handlers.{Locked}
use go_rabbitmq.Publisher.Effects.{note_failure_locked, apply_effect, apply_effects, locked_at}
use go_rabbitmq.Publisher.Settles.{to_ℕ, goes, bumps, Settles}
use go_rabbitmq.Publisher.Books.{hits, fired_at, decided, undecided, Books}

-- `t` is `s` after the effects `es` of a section on the message at `p`.
pub record Told (p : ℕ) (es : List Effect) (s t : Publisher) : Type 0 where
  pub heap : t.heap ≡ s.heap
  pub signals : t.signals ≡ s.signals
  pub tasks : (q : ℕ) → hits q t.tasks ≡ hits q s.tasks + (if p == q then goes es else 0)
  pub decided_by : decided t.stats ≡ decided s.stats + bumps es
  pub published : t.stats.total_published ≡ s.stats.total_published

goes-cons : (e : Effect) (es : List Effect) → goes (e ∷ es) ≡ goes (e ∷ []) + goes es
goes-cons (go t) es = omega arith
goes-cons e es = omega arith

bumps-cons : (e : Effect) (es : List Effect) → bumps (e ∷ es) ≡ bumps (e ∷ []) + bumps es
bumps-cons (bump c) es = omega arith
bumps-cons e es = omega arith

module _ (p : ℕ) where
  note_failure-Told :
      (g : ℕ) (r : ErrorText) (s : Publisher)
      → Told p (note_failure g r ∷ []) s (note_failure_locked g r s)
  unfolding note_failure_locked
  note_failure-Told g r s = elim (Option-cases (get_elem? s.generations s.confirm_gen)) [
    | inl e ↦ rw (e, note_failure_locked) (ground arith)
    | inr (gen, e) ↦ rw (e, note_failure_locked) (ground arith)
  ]

  effect-Told : (e : Effect) (s : Publisher) → Told p (e ∷ []) s (apply_effect p e s)
  effect-Told (bump total_confirmed) s = ground arith
  effect-Told (bump c) s = ground arith
  effect-Told (note_failure g r) s = note_failure-Told g r s
  effect-Told (go t) s = ground arith

  pub effects-Told : (es : List Effect) (s : Publisher) → Told p es s (apply_effects p es s)
  effects-Told [] s = ground arith
  effects-Told (e ∷ es) s =
      let first = effect-Told e s in
      let rest = effects-Told es (apply_effect p e s) in
      record {
        heap = ground (arith, first, rest);
        signals = ground (arith, first, rest);
        tasks = λ q. ground (arith, first.tasks q, rest.tasks q, goes-cons e es);
        decided_by = omega (arith, first.decided_by, rest.decided_by, bumps-cons e es);
        published = ground (arith, first, rest);
      }

pub fired_at-set :
    (p q : ℕ) (heap : List PendingMessage) (m' m : PendingMessage)
    → get_elem? heap p ≡ some m
    → fired_at q (set heap p m') ≡ (if p == q then to_ℕ m'.callback_fired else fired_at q heap)
fired_at-set p q heap m' m e =
    ground (arith, get_elem?-set_self heap p m' e, get_elem?-set_ne heap p q m')

pub fired_at_of :
    (p : ℕ) (heap : List PendingMessage) (m : PendingMessage)
    → get_elem? heap p ≡ some m
    → fired_at p heap ≡ to_ℕ m.callback_fired
fired_at_of p heap m e = rw (fired_at, e) refl

-- A section that settles the message at `p` keeps the books.
module _ (f : PendingMessage → Locked) (settles : (m : PendingMessage) → Settles m (f m)) where
  section-Books :
      (p : ℕ) (s : Publisher) (m : PendingMessage)
      → get_elem? s.heap p ≡ some m
      → Books s
      → Books (apply_effects p (f m).1 (record s { heap = set s.heap p (f m).0 }))
  section-Books p s m e b =
      let told = effects-Told p (f m).1 (record s { heap = set s.heap p (f m).0 }) in
      let st = settles m in
      record {
        claimed = λ q. ground (
          arith,
          told.tasks q,
          told.signals,
          told.heap,
          st.claims,
          b.claimed q,
          fired_at-set p q s.heap (f m).0 m e,
          fired_at_of p s.heap m e,
        );
        counted = ground (
          arith,
          told.decided_by,
          told.published,
          told.heap,
          st.claims,
          st.counts,
          b.counted,
          sum_by-set undecided s.heap p (f m).0 e,
        );
      }

  pub locked_at-Books : (p : ℕ) (s : Publisher) → Books s → Books (locked_at f p s)
  unfolding locked_at
  locked_at-Books p s b = elim (Option-cases (get_elem? s.heap p)) [
    | inl e ↦ rw (e, locked_at) b
    | inr (m, e) ↦ rw (e, locked_at) (section-Books p s m e b)
  ]

-- What a locked section does at its own message.
pub locked_at_self :
    (f : PendingMessage → Locked) (p : ℕ) (s : Publisher) (m : PendingMessage)
    → get_elem? s.heap p ≡ some m
    → let t = locked_at f p s in
      (get_elem? t.heap p ≡ some (f m).0) × (hits p t.tasks ≡ hits p s.tasks + goes (f m).1)
unfolding locked_at
locked_at_self f p s m e =
    let t = record s { heap = set s.heap p (f m).0 } in
    let told = effects-Told p (f m).1 t in
    rw (e, locked_at)
      (
        ap (λ h. get_elem? h p) told.heap ∙ get_elem?-set_self s.heap p (f m).0 e,
        ground (arith, told.tasks p),
      )
