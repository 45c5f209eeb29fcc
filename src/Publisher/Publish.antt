-- ===== src/Publisher/Publish.antt =====
-- A publish that fails leaves no trace of the message, and a delivery tag names one message.
-- it, and the keys of the pending map do not collide.
use go_rabbitmq.Base.{
  ℕ, ◌+◌, ◌^◌, ◌<◌, ◌≡◌, ◌∙◌, refl, ap, String, Bool, true, none, some, arith, ==_iff, length,
  get_elem?, get_elem?-snoc_self,
}
use go_rabbitmq.PendingMap.{
  ShardedPendingMap, store, load_by_message_id, load_by_delivery_tag, delete_pending,
}
use go_rabbitmq.PendingMap.Refine.{store-maps, delete_pending-maps}
use go_rabbitmq.Base.Eq.{String_eq}
use go_rabbitmq.Publisher.State.{PendingMessage, ConfirmGeneration, Publisher}
use go_rabbitmq.Publisher.Effects.{delivery_key, on_loaded}
use go_rabbitmq.Publisher.Track.{
  registered, tracked, add_tracked, register_on, register, SendResult, send_failed, undo_publish,
  at_heap, done_at, send_done,
}

-- Keys of different generations or tags differ, as long as the generation fits in 24 bits and the tag
-- in 40.
pub delivery_key-injective :
    (g g' t t' : ℕ)
    → g < 2 ^ 24
    → g' < 2 ^ 24
    → t < 2 ^ 40
    → t' < 2 ^ 40
    → delivery_key g t ≡ delivery_key g' t'
    → (g ≡ g') × (t ≡ t')
unfolding delivery_key
delivery_key-injective g g' t t' hg hg' ht ht' e = (omega arith, omega arith)

-- The state after a registration.
module _ (gen : ConfirmGeneration) (ctx_error : Bool) (timeout : ℕ) (m : PendingMessage)
    (s t : Publisher) where
  registered_on :
      register_on gen ctx_error timeout m s ≡ (t, registered)
      → let entry = tracked gen timeout m in
        (add_tracked entry s ≡ t)
        × ((store entry.message_id entry.key (length s.heap) s.pending_messages).1 ≡ true)
  unfolding register_on
  registered_on h = ground arith

  registered_state :
      get_elem? s.generations s.confirm_gen ≡ some gen
      → register ctx_error timeout m s ≡ (t, registered)
      → let entry = tracked gen timeout m in
        (add_tracked entry s ≡ t)
        × ((store entry.message_id entry.key (length s.heap) s.pending_messages).1 ≡ true)
  unfolding register
  registered_state e h = registered_on (ground arith)

-- The message whose send returns.
pub send_done_at :
    (p : ℕ) (m : PendingMessage) (s : Publisher) (result : SendResult)
    → s.sending ≡ some p
    → get_elem? s.heap p ≡ some m
    → send_done result s ≡ done_at result p s m
unfolding send_done
send_done_at p m s result h e =
    ap (λ o. on_loaded o (λ q. at_heap q (done_at result q s) s) s) h ∙ rw (e, at_heap) refl

-- `Delete` undoes a `Store` that succeeded under a free key.
store_undone :
    (k : String) (t p : ℕ) (m : ShardedPendingMap)
    → (store k t p m).1 ≡ true
    → load_by_delivery_tag t m ≡ none
    → let m' = delete_pending k t (store k t p m).0 in
      ((j : String) → load_by_message_id j m' ≡ load_by_message_id j m)
      × ((u : ℕ) → load_by_delivery_tag u m' ≡ load_by_delivery_tag u m)
store_undone k t p m stored free =
    let (result, ids, tags) = store-maps k t p m in
    let (ids', tags') = delete_pending-maps k t (store k t p m).0 in
    (
      λ j. ground (arith, result, ids j, ids' j, String_eq.beq_iff k j),
      λ u. ground (arith, tags u, tags' u, ==_iff t u),
    )

undone :
    (m : PendingMessage) (s : Publisher)
    → (store m.message_id m.key (length s.heap) s.pending_messages).1 ≡ true
    → load_by_delivery_tag m.key s.pending_messages ≡ none
    → let u = undo_publish (length s.heap) m (add_tracked m s) in
      (u.generations ≡ s.generations)
      × (u.stats.total_published ≡ s.stats.total_published)
      × (u.tasks ≡ s.tasks)
      × ((id : String)
          → load_by_message_id id u.pending_messages ≡ load_by_message_id id s.pending_messages)
      × ((key : ℕ)
          → load_by_delivery_tag key u.pending_messages
            ≡ load_by_delivery_tag key s.pending_messages)
unfolding undo_publish add_tracked
undone m s stored free =
    let (ids, tags) =
      store_undone m.message_id m.key (length s.heap) s.pending_messages stored free in
    (refl, omega arith, refl, ids, tags)

-- The tags, the published total, the goroutines and every reading of the pending map are the same.
abbrev pub IsUndone : Publisher → Publisher → Type 0
IsUndone s u =
    (u.generations ≡ s.generations)
    × (u.stats.total_published ≡ s.stats.total_published)
    × (u.tasks ≡ s.tasks)
    × ((id : String)
        → load_by_message_id id u.pending_messages ≡ load_by_message_id id s.pending_messages)
    × ((key : ℕ)
        → load_by_delivery_tag key u.pending_messages ≡ load_by_delivery_tag key s.pending_messages)

-- A registration whose send fails, with nothing between them, leaves the tags, the published total
-- and the goroutines as they were, and every reading of the pending map, if the new key was free.
pub failed_publish-IsUndone :
    (ctx_error : Bool) (timeout : ℕ) (m : PendingMessage) (s t : Publisher)
    (gen : ConfirmGeneration)
    → get_elem? s.generations s.confirm_gen ≡ some gen
    → load_by_delivery_tag (delivery_key gen.id (gen.published + 1)) s.pending_messages ≡ none
    → register ctx_error timeout m s ≡ (t, registered)
    → IsUndone s (send_done send_failed t)
failed_publish-IsUndone ctx_error timeout m s t gen e free h =
    let entry = tracked gen timeout m in
    let (st, stored) = registered_state gen ctx_error timeout m s t e h in
    rw (← st) (
      rw
        (send_done_at (length s.heap) entry (add_tracked entry s) send_failed
          (unfold add_tracked in refl) (unfold add_tracked in get_elem?-snoc_self s.heap entry))
        (undone entry s stored (unfold tracked in free)))
