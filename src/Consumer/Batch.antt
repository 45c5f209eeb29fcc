-- ===== src/Consumer/Batch.antt =====
-- consumer.go: a batch of deliveries, its handler and the settlement of each.
use go_rabbitmq.Base.{
  ℕ, ◌+◌, ◌≡◌, refl, sym, ◌∙◌, Bool, true, false, List, [], ◌∷◌, map, arith, if◌then◌else◌, length,
  All,
}
use go_rabbitmq.Message.{Message}
use go_rabbitmq.Consumer.Delivery.{Wire, Delivery, new_delivery, ack_delivery, reject_delivery}
use go_rabbitmq.Consumer.Process.{Settlement, settle_each}
use go_rabbitmq.Consumer.Settlement.{
  settlements_in, IsGuarded, settle_each-IsGuarded, fresh-IsGuarded,
}

-- How the handler of a batch ends: the errors by position, `true` for one that is not nil.
pub data BatchEnding : Type 0 where
  returns : List Bool → BatchEnding
  panicked : BatchEnding

-- What it does with the deliveries, by position, before that.
pub record BatchRun : Type 0 where
  pub settlements : List (List Settlement)
  pub ending : BatchEnding

abbrev pub all_failed : List Delivery → List Bool
all_failed [] = []
all_failed (d ∷ ds) = true ∷ all_failed ds

-- Padded with nil errors, or cut, to the batch's length.
abbrev pub fitted : List Delivery → List Bool → List Bool
fitted [] es = []
fitted (d ∷ ds) [] = false ∷ fitted ds []
fitted (d ∷ ds) (e ∷ es) = e ∷ fitted ds es

abbrev pub errors_of : List Delivery → BatchEnding → List Bool
errors_of ds panicked = all_failed ds
errors_of ds (returns es) = fitted ds es

abbrev pub handled : (Wire → Bool) → List (List Settlement) → List Delivery → List Delivery
handled wire ss [] = []
handled wire [] (d ∷ ds) = d ∷ handled wire [] ds
handled wire (s ∷ ss) (d ∷ ds) = settle_each wire s d ∷ handled wire ss ds

pub record BatchResult : Type 0 where
  pub deliveries : List Delivery
  pub success_count : ℕ
  pub failure_count : ℕ

abbrev pub settle_item : (Wire → Bool) → Bool → Bool → Bool → Delivery → Delivery
settle_item wire auto_ack requeue failed d =
    if auto_ack then d else if failed then reject_delivery requeue d else ack_delivery wire d

abbrev pub settle_batch : (Wire → Bool) → Bool → Bool → List Bool → List Delivery → BatchResult
settle_batch wire auto_ack requeue [] ds = record {
  deliveries = ds;
  success_count = 0;
  failure_count = 0;
}
settle_batch wire auto_ack requeue (e ∷ es) [] = record {
  deliveries = [];
  success_count = 0;
  failure_count = 0;
}
settle_batch wire auto_ack requeue (e ∷ es) (d ∷ ds) =
    let rest = settle_batch wire auto_ack requeue es ds in
    record {
      deliveries = settle_item wire auto_ack requeue e d ∷ rest.deliveries;
      success_count = if e then rest.success_count else rest.success_count + 1;
      failure_count = if e then rest.failure_count + 1 else rest.failure_count;
    }

-- `processBatch`, without its metrics and tracing; `requeue` is `RejectRequeue`. The deliveries' order
-- is the batch's.
unfoldable pub process_batch :
    (Wire → Bool) → Bool → Bool → (List Delivery → BatchRun) → List Delivery → BatchResult
process_batch wire auto_ack requeue handler [] = record {
  deliveries = [];
  success_count = 0;
  failure_count = 0;
}
process_batch wire auto_ack requeue handler (d ∷ ds) =
    let run = handler (d ∷ ds) in
    settle_batch wire auto_ack requeue (errors_of (d ∷ ds) run.ending)
      (handled wire run.settlements (d ∷ ds))

length-errors_of : (ds : List Delivery) (e : BatchEnding) → length (errors_of ds e) ≡ length ds
length-errors_of [] panicked = refl
length-errors_of (d ∷ ds) panicked = let rest = length-errors_of ds panicked in omega arith
length-errors_of [] (returns es) = refl
length-errors_of (d ∷ ds) (returns []) = let rest = length-errors_of ds (returns []) in omega arith
length-errors_of (d ∷ ds) (returns (e ∷ es)) =
    let rest = length-errors_of ds (returns es) in omega arith

length-handled :
    (wire : Wire → Bool) (ss : List (List Settlement)) (ds : List Delivery)
    → length (handled wire ss ds) ≡ length ds
length-handled wire ss [] = refl
length-handled wire [] (d ∷ ds) = let rest = length-handled wire [] ds in omega arith
length-handled wire (s ∷ ss) (d ∷ ds) = let rest = length-handled wire ss ds in omega arith

handled-IsGuarded :
    (wire : Wire → Bool) (ss : List (List Settlement)) (ds : List Delivery)
    → All IsGuarded ds
    → All IsGuarded (handled wire ss ds)
handled-IsGuarded wire ss [] g = g
handled-IsGuarded wire [] (d ∷ ds) g = (g.0, handled-IsGuarded wire [] ds g.1)
handled-IsGuarded wire (s ∷ ss) (d ∷ ds) g =
    (settle_each-IsGuarded wire s d g.0, handled-IsGuarded wire ss ds g.1)

settle_item-once :
    (wire : Wire → Bool) (requeue failed : Bool) (d : Delivery)
    → IsGuarded d
    → settlements_in (settle_item wire false requeue failed d).log ≡ 1
unfolding ack_delivery reject_delivery
settle_item-once wire requeue failed d g = ground arith

settle_batch-once :
    (wire : Wire → Bool) (requeue : Bool) (es : List Bool) (ds : List Delivery)
    → length es ≡ length ds
    → All IsGuarded ds
    → All (λ d. settlements_in d.log ≡ 1) (settle_batch wire false requeue es ds).deliveries
settle_batch-once wire requeue [] [] same g = tt
settle_batch-once wire requeue [] (d ∷ ds) same g = ground arith
settle_batch-once wire requeue (e ∷ es) [] same g = tt
settle_batch-once wire requeue (e ∷ es) (d ∷ ds) same g =
    (settle_item-once wire requeue e d g.0, settle_batch-once wire requeue es ds (ground arith) g.1)

settle_batch-counts :
    (wire : Wire → Bool) (auto_ack requeue : Bool) (es : List Bool) (ds : List Delivery)
    → length es ≡ length ds
    → (settle_batch wire auto_ack requeue es ds).success_count
        + (settle_batch wire auto_ack requeue es ds).failure_count
      ≡ length ds
settle_batch-counts wire auto_ack requeue [] [] same = refl
settle_batch-counts wire auto_ack requeue [] (d ∷ ds) same = ground arith
settle_batch-counts wire auto_ack requeue (e ∷ es) [] same = ground arith
settle_batch-counts wire auto_ack requeue (e ∷ es) (d ∷ ds) same =
    let rest = settle_batch-counts wire auto_ack requeue es ds (ground arith) in ground arith

All-fresh : (ms : List Message) → All IsGuarded (map new_delivery ms)
All-fresh [] = tt
All-fresh (m ∷ ms) = (fresh-IsGuarded m, All-fresh ms)

settle_batch-length :
    (wire : Wire → Bool) (auto_ack requeue : Bool) (es : List Bool) (ds : List Delivery)
    → length (settle_batch wire auto_ack requeue es ds).deliveries ≡ length ds
settle_batch-length wire auto_ack requeue [] ds = refl
settle_batch-length wire auto_ack requeue (e ∷ es) [] = refl
settle_batch-length wire auto_ack requeue (e ∷ es) (d ∷ ds) =
    let rest = settle_batch-length wire auto_ack requeue es ds in omega arith

length-fresh : (ms : List Message) → length (map new_delivery ms) ≡ length ms
length-fresh [] = refl
length-fresh (m ∷ ms) = let rest = length-fresh ms in omega arith

-- Manual acknowledgment: whatever the handler of a batch settles itself, and whether it returns too few
-- errors, too many or panics, exactly one ack, nack or reject is sent for each message, and each
-- message counts as one success or one failure.
pub process_batch_settles :
    (wire : Wire → Bool) (requeue : Bool) (handler : List Delivery → BatchRun) (ms : List Message)
    → let result = process_batch wire false requeue handler (map new_delivery ms) in
      All (λ d. settlements_in d.log ≡ 1) result.deliveries
      × (length result.deliveries ≡ length ms)
      × (result.success_count + result.failure_count ≡ length ms)
unfolding process_batch
process_batch_settles wire requeue handler [] = (tt, refl, refl)
process_batch_settles wire requeue handler (m ∷ ms) =
    let ds = map new_delivery (m ∷ ms) in
    let run = handler ds in
    let es = errors_of ds run.ending in
    let handled_ds = handled wire run.settlements ds in
    let kept = length-handled wire run.settlements ds in
    let same = length-errors_of ds run.ending ∙ sym kept in
    let all = length-fresh (m ∷ ms) in
    (
      settle_batch-once wire requeue es handled_ds same
          (handled-IsGuarded wire run.settlements ds (All-fresh (m ∷ ms))),
      settle_batch-length wire false requeue es handled_ds ∙ kept ∙ all,
      settle_batch-counts wire false requeue es handled_ds same ∙ kept ∙ all,
    )
