-- ===== src/PendingMap/Tests.antt =====
-- Runs of the pending map, and the map theorems at concrete inputs.
use go_rabbitmq.Base.{ℕ, ◌≡◌, refl, String, not, ◌&&◌, is_some, none, some, ◌==◌, if◌then◌else◌}
use go_rabbitmq.PendingMap.{
  ShardedPendingMap, new_sharded_pending_map, store, load_by_message_id, load_by_delivery_tag,
  count, delete_pending,
}
use go_rabbitmq.PendingMap.Fnv.{fnv32a, bytes}
use go_rabbitmq.PendingMap.Refine.{id_eq, store-maps, delete_pending-maps}

-- The offset basis and "a", as in the FNV reference.
fnv_a : fnv32a (bytes "a") ≡ 0xE40C292C
unfolding fnv32a bytes
fnv_a = refl

abbrev one_pending : ShardedPendingMap
one_pending = (store "m1" 7 0 new_sharded_pending_map).0

count_one : count one_pending ≡ 1
unfolding count store new_sharded_pending_map fnv32a bytes
count_one = refl

-- A second message under another ID, on the same tag shard.
store-maps_example :
    let (m', stored) = store "m2" 39 1 one_pending in
    (stored ≡ not (is_some (load_by_message_id "m2" one_pending)))
    × ((j : String)
        → load_by_message_id j m'
          ≡ (if stored && id_eq "m2" j then some 1 else load_by_message_id j one_pending))
    × ((u : ℕ)
        → load_by_delivery_tag u m'
          ≡ (if stored && (39 == u) then some 1 else load_by_delivery_tag u one_pending))
store-maps_example = store-maps "m2" 39 1 one_pending

delete_pending-maps_example :
    ((j : String)
      → load_by_message_id j (delete_pending "m1" 7 one_pending)
        ≡ (if id_eq "m1" j then none else load_by_message_id j one_pending))
    × ((u : ℕ)
        → load_by_delivery_tag u (delete_pending "m1" 7 one_pending)
          ≡ (if 7 == u then none else load_by_delivery_tag u one_pending))
delete_pending-maps_example = delete_pending-maps "m1" 7 one_pending
