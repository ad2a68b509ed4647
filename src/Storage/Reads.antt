-- ===== src/Storage/Reads.antt =====
-- ethstorage/storage_manager.go and ethstorage/shard_manager.go: samples, and closing the shards.
use es_node.Prelude.{ℕ, List, [], ◌∷◌, none, some}
use es_node.Outcome.{Outcome, ok, err, Exec, then_do, shard_not_found}
use es_node.Shard
use es_node.Shard.{DataShard}
use es_node.Manager.{ShardManager, lookup, with_shard}
use es_node.Storage.{StorageManager}

unfoldable pub read_sample_unlocked : StorageManager → ℕ → ℕ → Outcome (List ℕ)
read_sample_unlocked s shard_idx sample_idx = elim (lookup shard_idx s.shard_manager.shard_map) [
  | some ds ↦ Shard.read_sample ds.data_files sample_idx
  | none ↦ err shard_not_found
]

close_shard : ℕ → Exec ShardManager (Unit {0})
close_shard shard_idx sm = elim (lookup shard_idx sm.shard_map) [
  | some ds ↦
      let (r, dfs) = Shard.close ds.data_files in
      (r, with_shard sm shard_idx (record ds { data_files = dfs }))
  | none ↦ (ok tt, sm)
]

-- Go's order of the keys of a map is any: it is the argument.
unfoldable pub close_shards : List ℕ → Exec ShardManager (Unit {0})
unfolding close_shard
close_shards [] sm = (ok tt, sm)
close_shards (k ∷ ks) sm = then_do (close_shard k sm) (λ _ sm'. close_shards ks sm')
