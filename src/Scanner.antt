-- ===== src/Scanner.antt =====
-- ethstorage/scanner/worker.go: which of the local entries a batch of the scanner checks. The texts
-- for the log are left out.
pub mod Batches
pub mod Rounds
pub mod Repair
pub mod Stats
pub mod Settled
pub mod Local
use es_node.Prelude.{
  ℕ, zero, suc, ◌+◌, ◌-◌, ◌*◌, ◌/◌, ◌%◌, min, Bool, true, false, ◌&&◌, List, [], ◌∷◌, ◌++◌, Option,
  none, some, ltb, leb, ◌==◌, if◌then◌else◌, ◌+64◌, ◌-64◌, ◌*64◌,
}
use es_node.Outcome.{Outcome, ok, err, panic, ◌>>=◌}
use es_node.Storage.{StorageManager}
use es_node.Sync.{elem}
use es_node.Manager.{shard_ids}

-- shards[i]
abbrev pub at : ℕ → List ℕ → Outcome ℕ
at i [] = panic
at zero (s ∷ ss) = ok s
at (suc i) (s ∷ ss) = at i ss

-- The inner loop: n entries of a shard, from k on.
unfoldable pub entries_of : ℕ → ℕ → ℕ → ℕ → List ℕ
entries_of kv_entries shard zero k = []
entries_of kv_entries shard (suc n) k =
    (shard *64 kv_entries +64 k) ∷ entries_of kv_entries shard n (k + 1)

-- The outer loop from position i on, with n positions left.
module _ (shards : List ℕ) (kv_entries start_pos start_offset end_pos end_offset : ℕ) where
  unfoldable pub entries_at : ℕ → ℕ → Outcome (List ℕ)
  entries_at zero i = ok []
  entries_at (suc n) i =
      let rest = entries_at n (i + 1) in
      let local_start = if i == start_pos then start_offset else 0 in
      let local_end = if i == end_pos then end_offset else kv_entries in
      if ltb local_start local_end
      then (do
        shard ← at i shards
        es ← rest
        ok (entries_of kv_entries shard (local_end - local_start) local_start ++ es))
      else rest

-- The indices of the batch, and where the next one starts. Without an entry the end of the batch
-- wraps around, and without a size of a shard the division panics.
unfoldable pub get_kvs_in_batch : List ℕ → ℕ → ℕ → ℕ → ℕ → Outcome (List ℕ × ℕ)
get_kvs_in_batch shards kv_entries local_kv_count batch_size start_kv_index =
    let start = if leb local_kv_count start_kv_index then 0 else start_kv_index in
    let end = min (start +64 batch_size) local_kv_count in
    let end_index = end -64 1 in
    let start_pos = start / kv_entries in
    let end_pos = end_index / kv_entries in
    if kv_entries == 0 then panic else (do
      es ←
          entries_at shards kv_entries start_pos (start % kv_entries) end_pos
            (end_index % kv_entries + 1) (end_pos + 1 - start_pos) start_pos
      ok (es, end))

-- The entries of the local shards, added to `total`.
unfoldable pub summary_local_kvs : ℕ → ℕ → List ℕ → ℕ → Outcome ℕ
summary_local_kvs kv_entries last_kv_idx [] total = ok total
summary_local_kvs kv_entries last_kv_idx (shard ∷ shards) total =
    let last_shard = last_kv_idx / kv_entries in
    let more = summary_local_kvs kv_entries last_kv_idx shards (
      if shard == last_shard
      then total +64 (last_kv_idx % kv_entries +64 1)
      else total +64 kv_entries) in
    if kv_entries == 0 then panic else if ltb last_shard shard then ok total else more

-- Worker.summaryLocalKvs and Worker.getKvsInBatch
unfoldable pub count_local_kvs : StorageManager → Outcome ℕ
count_local_kvs s =
    if s.kv_entry_count == 0
    then ok 0
    else summary_local_kvs s.shard_manager.kv_entries (s.kv_entry_count - 1)
        (shard_ids s.shard_manager) 0

unfoldable pub next_batch : StorageManager → ℕ → ℕ → Outcome (List ℕ × ℕ)
next_batch s batch_size start_kv_index = count_local_kvs s >>= λ local_kv_count.
    if local_kv_count == 0
    then ok ([], 0)
    else get_kvs_in_batch (shard_ids s.shard_manager) s.shard_manager.kv_entries local_kv_count
        batch_size start_kv_index

-- The filter of latestUpdated on the indices that changed in the blocks.
unfoldable pub stored_locally : ℕ → List ℕ → List ℕ → List ℕ
stored_locally kv_entries shards [] = []
stored_locally kv_entries shards (kv ∷ kvs) =
    let rest = stored_locally kv_entries shards kvs in
    if elem (kv / kv_entries) shards then kv ∷ rest else rest
