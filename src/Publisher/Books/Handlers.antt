-- ===== src/Publisher/Books/Handlers.antt =====
-- The handlers' sections and the orphans' settlement keep the books.
use go_rabbitmq.Base.{
  ℕ, String, Bool, Option, none, some, List, [], ◌∷◌, get_elem?, Option-cases, if_either, inl, inr,
}
use go_rabbitmq.Publisher.State.{Publisher}
use go_rabbitmq.Publisher.Effects.{
  note_response, on_loaded, handle_confirmation, handle_return,
  handle_mandatory_grace_period_expired, handle_timeout, settle_all, mark_dead, fail_orphans,
}
use go_rabbitmq.Publisher.Track.{install_confirm_generation}
use go_rabbitmq.Publisher.Settles.{
  confirmation-Settles, return-Settles, timeout-Settles, grace-Settles, orphan-Settles,
}
use go_rabbitmq.Publisher.Books.{Books}
use go_rabbitmq.Publisher.Books.Effects.{locked_at-Books}

pub on_loaded-Books :
    (o : Option ℕ) (f : ℕ → Publisher) (s : Publisher)
    → ((p : ℕ) → Books (f p))
    → Books s
    → Books (on_loaded o f s)
on_loaded-Books none f s h b = b
on_loaded-Books (some p) f s h b = h p

pub note_response-Books : (s : Publisher) → Books s → Books (note_response s)
unfolding note_response
note_response-Books s b = record { claimed = b.claimed; counted = b.counted }

pub handle_confirmation-Books :
    (g tag : ℕ) (ack : Bool) (s : Publisher) → Books s → Books (handle_confirmation g tag ack s)
unfolding handle_confirmation
handle_confirmation-Books g tag ack s b =
    let b' = note_response-Books s b in
    on_loaded-Books _ _ _
      (λ p. locked_at-Books _ (confirmation-Settles (note_response s).config ack) p _ b') b'

pub handle_return-Books :
    (id text : String) (code : ℕ) (s : Publisher) → Books s → Books (handle_return id text code s)
unfolding handle_return
handle_return-Books id text code s b =
    let b' = note_response-Books s b in
    on_loaded-Books _ _ _
      (λ p. locked_at-Books _ (return-Settles (note_response s).config text code) p _ b') b'

pub handle_grace-Books :
    (tag : ℕ) (s : Publisher) → Books s → Books (handle_mandatory_grace_period_expired tag s)
unfolding handle_mandatory_grace_period_expired
handle_grace-Books tag s b =
    on_loaded-Books _ _ _ (λ p. locked_at-Books _ (grace-Settles tag) p s b) b

pub handle_timeout-Books : (tag : ℕ) (s : Publisher) → Books s → Books (handle_timeout tag s)
unfolding handle_timeout
handle_timeout-Books tag s b =
    on_loaded-Books _ _ _ (λ p. locked_at-Books _ (timeout-Settles s.config tag) p s b) b

settle_all-Books :
    (reason : String) (ps : List ℕ) (s : Publisher) → Books s → Books (settle_all reason ps s)
unfolding settle_all
settle_all-Books reason [] s b = b
settle_all-Books reason (p ∷ ps) s b =
    settle_all-Books reason ps _ (locked_at-Books _ (orphan-Settles reason) p s b)

pub mark_dead-Books : (g : ℕ) (s : Publisher) → Books s → Books (mark_dead g s)
mark_dead-Books g s b = elim (Option-cases (get_elem? s.generations g)) [
  | inl e ↦ rw (e, mark_dead) b
  | inr (gen, e) ↦ rw (e, mark_dead) (record { claimed = b.claimed; counted = b.counted })
]

pub fail_orphans-Books :
    (g : ℕ) (reason : String) (s : Publisher) → Books s → Books (fail_orphans g reason s)
unfolding fail_orphans
fail_orphans-Books g reason s b =
    if_either Books s.closed _ _ b (settle_all-Books reason _ _ (mark_dead-Books g s b))

pub install-Books : (s : Publisher) → Books s → Books (install_confirm_generation s)
unfolding install_confirm_generation
install-Books s b = record { claimed = b.claimed; counted = b.counted }
