-- ===== src/Publisher/Outcome/Locked.antt =====
-- A locked section that reports what it decides keeps the reports backed.
use go_rabbitmq.Base.{
  ℕ, ◌≡◌, refl, ap, ◌∙◌, some, List, [], ◌∷◌, inl, inr, Option-cases, if_either, get_elem?, set,
  get_elem?-set_self, All,
}
use go_rabbitmq.Publisher.State.{
  ErrorText, PendingMessage, Effect, bump, note_failure, go, Publisher,
}
use go_rabbitmq.Publisher.Handlers.{Locked}
use go_rabbitmq.Publisher.Effects.{note_failure_locked, apply_effect, apply_effects, locked_at}
use go_rabbitmq.Publisher.Outcome.Backed.{IsBacked, Keeps, AllBacked, AllBacked-set}

-- The goroutine that an effect starts is backed by the message.
abbrev pub Backs : PendingMessage → Effect → Type 0
Backs m (go t) = IsBacked t m
Backs m _ = Unit

-- What a section does to a message.
abbrev pub Reports : PendingMessage → Locked → Type 0
Reports m r = Keeps m r.0 × All (Backs r.0) r.1

abbrev pub PublisherBacked : Publisher → Type 0
PublisherBacked s = AllBacked s.heap s.tasks s.signals

note_failure-PublisherBacked :
    (g : ℕ) (r : ErrorText) (s : Publisher)
    → PublisherBacked s
    → PublisherBacked (note_failure_locked g r s)
unfolding note_failure_locked
note_failure-PublisherBacked g r s b = elim (Option-cases (get_elem? s.generations s.confirm_gen)) [
  | inl e ↦ rw (e, note_failure_locked) b
  | inr (gen, e) ↦ rw (e, note_failure_locked) (if_either PublisherBacked _ _ _ b b)
]

note_failure_heap :
    (g : ℕ) (r : ErrorText) (s : Publisher) → (note_failure_locked g r s).heap ≡ s.heap
unfolding note_failure_locked
note_failure_heap g r s = elim (Option-cases (get_elem? s.generations s.confirm_gen)) [
  | inl e ↦ rw (e, note_failure_locked) refl
  | inr (gen, e) ↦
      rw (e, note_failure_locked) (if_either (λ (t : Publisher). t.heap ≡ s.heap) _ _ _ refl refl)
]

effects-PublisherBacked :
    (p : ℕ) (m : PendingMessage) (es : List Effect) (s : Publisher)
    → get_elem? s.heap p ≡ some m
    → All (Backs m) es
    → PublisherBacked s
    → PublisherBacked (apply_effects p es s)
effects-PublisherBacked p m [] s e h b = b
effects-PublisherBacked p m (bump c ∷ es) s e h b =
    effects-PublisherBacked p m es (apply_effect p (bump c) s) e h.1 b
effects-PublisherBacked p m (note_failure g r ∷ es) s e h b =
    effects-PublisherBacked p m es (note_failure_locked g r s)
      (ap (λ heap. get_elem? heap p) (note_failure_heap g r s) ∙ e) h.1
      (note_failure-PublisherBacked g r s b)
effects-PublisherBacked p m (go t ∷ es) s e h b =
    effects-PublisherBacked p m es (apply_effect p (go t) s) e h.1 (((m, e, h.0), b.0), b.1)

pub locked_at-PublisherBacked :
    (f : PendingMessage → Locked) (p : ℕ) (s : Publisher)
    → ((m : PendingMessage) → Reports m (f m))
    → PublisherBacked s
    → PublisherBacked (locked_at f p s)
unfolding locked_at
locked_at-PublisherBacked f p s reports b = elim (Option-cases (get_elem? s.heap p)) [
  | inl e ↦ rw (e, locked_at) b
  | inr (m, e) ↦
      let (keeps, backs) = reports m in
      rw (e, locked_at)
        (effects-PublisherBacked p (f m).0 (f m).1 (record s { heap = set s.heap p (f m).0 })
          (get_elem?-set_self s.heap p (f m).0 e) backs
          (AllBacked-set s.heap s.tasks s.signals p m (f m).0 e keeps b))
]
