-- ===== src/PendingMap.antt =====
-- pending_map.go: the map of messages that wait for a confirmation, split into 32 shards. A pending
-- message is an object on the heap of the model, so the map holds its address, a number.
-- The shard locks are not modelled: each method is one step.
pub mod Fnv
pub mod Refine
mod Tests
use go_rabbitmq.Base.{
  ℕ, zero, suc, ◌+◌, ◌%◌, String, Bool, true, false, Option, none, some, List, [], ◌∷◌, ◌==◌,
  if◌then◌else◌, length, is_some,
}
use go_rabbitmq.Base.Eq.{String_eq, ℕ_eq}
use go_rabbitmq.Base.Dict.{lookup, insert, delete}
use Fnv.{fnv32a, bytes}

abbrev pub num_shards : ℕ
num_shards = 32

pub record PendingShard : Type 0 where
  pub by_message_id : List (String × ℕ)
  pub by_delivery_tag : List (ℕ × ℕ)

-- The array of shards is a function of the index, which is always taken modulo `num_shards`.
pub record ShardedPendingMap : Type 0 where
  pub shards : ℕ → PendingShard

unfoldable pub new_sharded_pending_map : ShardedPendingMap
new_sharded_pending_map = record {
  shards = λ i. record { by_message_id = []; by_delivery_tag = [] };
}

unfoldable pub get_shard : String → ℕ
get_shard message_id = fnv32a (bytes message_id) % num_shards

unfoldable pub get_shard_by_delivery_tag : ℕ → ℕ
get_shard_by_delivery_tag delivery_tag = delivery_tag % num_shards

-- An assignment to one element of the array.
abbrev pub set_shard : (ℕ → PendingShard) → ℕ → PendingShard → ℕ → PendingShard
set_shard shards i s j = if i == j then s else shards j

abbrev pub put_id : String → ℕ → PendingShard → PendingShard
put_id message_id p s = record s { by_message_id = insert message_id p s.by_message_id }

abbrev pub put_tag : ℕ → ℕ → PendingShard → PendingShard
put_tag tag p s = record s { by_delivery_tag = insert tag p s.by_delivery_tag }

abbrev pub drop_id : String → PendingShard → PendingShard
drop_id message_id s = record s { by_message_id = delete message_id s.by_message_id }

abbrev pub drop_tag : ℕ → PendingShard → PendingShard
drop_tag tag s = record s { by_delivery_tag = delete tag s.by_delivery_tag }

-- The two writes of `Store`, after its check. When the shards coincide, the second write starts from
-- what the first one left.
abbrev pub write_both :
    (PendingShard → PendingShard)
    → (PendingShard → PendingShard)
    → ℕ
    → ℕ
    → ShardedPendingMap
    → ShardedPendingMap
write_both f g msg_shard tag_shard m =
    let first = set_shard m.shards msg_shard (f (m.shards msg_shard)) in
    record { shards = set_shard first tag_shard (g (first tag_shard)) }

-- The result is `false`, and nothing is written, if the message ID is taken.
unfoldable pub store : String → ℕ → ℕ → ShardedPendingMap → ShardedPendingMap × Bool
unfolding get_shard get_shard_by_delivery_tag lookup insert
store message_id tag p m =
    if is_some (lookup message_id (m.shards (get_shard message_id)).by_message_id)
    then (m, false)
    else (
      write_both (put_id message_id p) (put_tag tag p) (get_shard message_id)
          (get_shard_by_delivery_tag tag) m,
      true,
    )

unfoldable pub load_by_message_id : String → ShardedPendingMap → Option ℕ
unfolding get_shard lookup
load_by_message_id message_id m = lookup message_id (m.shards (get_shard message_id)).by_message_id

unfoldable pub load_by_delivery_tag : ℕ → ShardedPendingMap → Option ℕ
unfolding get_shard_by_delivery_tag lookup
load_by_delivery_tag tag m = lookup tag (m.shards (get_shard_by_delivery_tag tag)).by_delivery_tag

unfoldable pub delete_pending : String → ℕ → ShardedPendingMap → ShardedPendingMap
unfolding get_shard get_shard_by_delivery_tag delete
delete_pending message_id tag m =
    write_both (drop_id message_id) (drop_tag tag) (get_shard message_id)
      (get_shard_by_delivery_tag tag) m

count_below : ℕ → ShardedPendingMap → ℕ
count_below zero m = 0
count_below (suc i) m = count_below i m + length (m.shards i).by_message_id

unfoldable pub count : ShardedPendingMap → ℕ
unfolding count_below
count m = count_below num_shards m
