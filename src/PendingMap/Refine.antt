-- ===== src/PendingMap/Refine.antt =====
-- The sharded map of pending_map.go behaves as two plain maps, one from message IDs and one from
-- delivery tags: no read sees how the entries are spread over the shards.
use go_rabbitmq.Base.{
  ℕ, ◌≡◌, ap, String, Bool, true, not, ◌&&◌, none, some, ◌==◌, ==_iff, if◌then◌else◌, arith,
  is_some,
}
use go_rabbitmq.Base.Eq.{String_eq, ℕ_eq}
use go_rabbitmq.Base.Dict.{insert, delete, lookup-insert, lookup-delete}
use go_rabbitmq.PendingMap.{
  ShardedPendingMap, get_shard, get_shard_by_delivery_tag, put_id, put_tag, drop_id, drop_tag,
  write_both, store, load_by_message_id, load_by_delivery_tag, delete_pending,
}

abbrev pub id_eq : String → String → Bool
id_eq = String_eq.beq

shard_of_eq : (k j : String) → id_eq k j ≡ true → get_shard k ≡ get_shard j
shard_of_eq k j h = ap get_shard ((String_eq.beq_iff k j).0 h)

tag_shard_of_eq :
    (k j : ℕ) → (k == j) ≡ true → get_shard_by_delivery_tag k ≡ get_shard_by_delivery_tag j
tag_shard_of_eq k j h = ap get_shard_by_delivery_tag ((==_iff k j).0 h)

-- The shard of a key, after the two writes of `Store` or `Delete`.
module _ (k : String) (t p i : ℕ) (m : ShardedPendingMap) where
  put_id_at :
      (a b : ℕ)
      → ((write_both (put_id k p) (put_tag t p) a b m).shards i).by_message_id
        ≡ (if a == i then insert k p (m.shards i).by_message_id else (m.shards i).by_message_id)
  put_id_at a b = ground arith

  put_tag_at :
      (a b : ℕ)
      → ((write_both (put_id k p) (put_tag t p) a b m).shards i).by_delivery_tag
        ≡ (if b == i then insert t p (m.shards i).by_delivery_tag else (m.shards i).by_delivery_tag)
  put_tag_at a b = ground arith

module _ (k : String) (t i : ℕ) (m : ShardedPendingMap) where
  drop_id_at :
      (a b : ℕ)
      → ((write_both (drop_id k) (drop_tag t) a b m).shards i).by_message_id
        ≡ (if a == i then delete k (m.shards i).by_message_id else (m.shards i).by_message_id)
  drop_id_at a b = ground arith

  drop_tag_at :
      (a b : ℕ)
      → ((write_both (drop_id k) (drop_tag t) a b m).shards i).by_delivery_tag
        ≡ (if b == i then delete t (m.shards i).by_delivery_tag else (m.shards i).by_delivery_tag)
  drop_tag_at a b = ground arith

-- `Store` succeeds exactly when the message ID is free. It then binds the ID and the tag, and
-- changes the reading of no other ID or tag; when it fails, no reading changes.
pub store-maps :
    (k : String) (t p : ℕ) (m : ShardedPendingMap)
    → let (m', stored) = store k t p m in
      (stored ≡ not (is_some (load_by_message_id k m)))
      × ((j : String)
          → load_by_message_id j m'
            ≡ (if stored && id_eq k j then some p else load_by_message_id j m))
      × ((u : ℕ)
          → load_by_delivery_tag u m'
            ≡ (if stored && (t == u) then some p else load_by_delivery_tag u m))
unfolding store load_by_message_id load_by_delivery_tag
store-maps k t p m = (
  ground arith,
  λ j. ground (
    arith,
    put_id_at k t p (get_shard j) m (get_shard k) (get_shard_by_delivery_tag t),
    lookup-insert k j p (m.shards (get_shard j)).by_message_id,
    shard_of_eq k j,
  ),
  λ u. ground (
    arith,
    put_tag_at k t p (get_shard_by_delivery_tag u) m (get_shard k) (get_shard_by_delivery_tag t),
    lookup-insert t u p (m.shards (get_shard_by_delivery_tag u)).by_delivery_tag,
    tag_shard_of_eq t u,
  ),
)

-- `Delete` unbinds the message ID and the tag, and changes the reading of no other ID or tag.
pub delete_pending-maps :
    (k : String) (t : ℕ) (m : ShardedPendingMap)
    → ((j : String)
        → load_by_message_id j (delete_pending k t m)
          ≡ (if id_eq k j then none else load_by_message_id j m))
      × ((u : ℕ)
          → load_by_delivery_tag u (delete_pending k t m)
            ≡ (if t == u then none else load_by_delivery_tag u m))
unfolding delete_pending load_by_message_id load_by_delivery_tag
delete_pending-maps k t m = (
  λ j. ground (
    arith,
    drop_id_at k t (get_shard j) m (get_shard k) (get_shard_by_delivery_tag t),
    lookup-delete k j (m.shards (get_shard j)).by_message_id,
    shard_of_eq k j,
  ),
  λ u. ground (
    arith,
    drop_tag_at k t (get_shard_by_delivery_tag u) m (get_shard k) (get_shard_by_delivery_tag t),
    lookup-delete t u (m.shards (get_shard_by_delivery_tag u)).by_delivery_tag,
    tag_shard_of_eq t u,
  ),
)
