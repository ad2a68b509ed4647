-- ===== src/Sync/Creation.antt =====
-- ethstorage/p2p/protocol/syncclient.go, createTask: splitting the entries of a shard.
use es_node.Prelude.{
  ℕ, zero, suc, ◌-◌, ◌/◌, min, false, List, [], ◌∷◌, ltb, leb, ◌==◌, if◌then◌else◌, ◌+64◌, ◌-64◌,
  ◌*64◌,
}
use es_node.Prelude.Int.{pos}
use es_node.Outcome.{Outcome, ok, panic, ◌>>=◌}
use es_node.Sync.{SubTask, SubEmptyTask, SyncState, Task}

abbrev pub min_sub_task_size : ℕ
min_sub_task_size = 16

-- max((total + parts - 1) / parts, minSubTaskSize): a panic without parts.
unfoldable pub part_size : ℕ → ℕ → Outcome ℕ
part_size total parts =
    let size = (total +64 parts -64 1) / parts in
    if parts == 0
    then panic
    else ok (if ltb size min_sub_task_size then min_sub_task_size else size)

-- The ranges of both loops, at most `fuel` of them; a round passes at least one index.
unfoldable pub split_range : ℕ → ℕ → ℕ → ℕ → List (ℕ × ℕ)
split_range zero size first limit = []
split_range (suc fuel) size first limit =
    let last = min (first +64 size) limit in
    let rest = split_range fuel size last limit in
    if ltb first limit then (first, last) ∷ rest else []

abbrev pub sub_task : ℕ × ℕ → SubTask
sub_task r = record { next = r.0; first = r.0; last = r.1; is_running = false; done = false }

abbrev pub sub_empty_task : ℕ × ℕ → SubEmptyTask
sub_empty_task r = record { first = r.0; last = r.1; is_running = false; done = false }

abbrev pub sub_tasks_of : List (ℕ × ℕ) → List SubTask
sub_tasks_of [] = []
sub_tasks_of (r ∷ rs) = sub_task r ∷ sub_tasks_of rs

abbrev pub sub_empty_tasks_of : List (ℕ × ℕ) → List SubEmptyTask
sub_empty_tasks_of [] = []
sub_empty_tasks_of (r ∷ rs) = sub_empty_task r ∷ sub_empty_tasks_of rs

abbrev pub no_progress : SyncState
no_progress = record {
  peer_count = pos 0;
  blobs_synced = 0;
  blobs_to_sync = 0;
  sync_progress = 0;
  synced_seconds = 0;
  empty_filled = 0;
  empty_to_fill = 0;
  fill_empty_progress = 0;
  fill_empty_seconds = 0;
}

-- Of the entries from first to limit those before `last_kv` are fetched and the others are filled:
-- the end of the ones, and the range of the others.
unfoldable pub divide_shard : ℕ → ℕ → ℕ → ℕ × ℕ × ℕ
divide_shard first limit last_kv =
    if leb last_kv first
    then (first, first, limit)
    else if leb last_kv limit
    then (last_kv, last_kv, limit)
    else (limit, 0, 0)

-- The empty sub tasks, and the number of entries that they fill.
unfoldable pub empty_ranges : ℕ → ℕ → ℕ → Outcome (List (ℕ × ℕ) × ℕ)
empty_ranges threads first limit = if limit == 0 then ok ([], 0) else (do
  size ← part_size (limit -64 first) threads
  ok (split_range (limit - first) size first limit, limit -64 first))

-- The contract, its entries per shard, SyncConcurrency, and maxFillEmptyTaskTreads.
module _ (contract : List ℕ) (kv_entries concurrency threads : ℕ) where
  unfoldable pub create_task : ℕ → ℕ → Outcome Task
  create_task sid last_kv =
      let first = kv_entries *64 sid in
      let (limit, first_empty, limit_empty) =
        divide_shard first (kv_entries *64 (sid +64 1)) last_kv in
      do
        size ← part_size (limit -64 first) concurrency
        empties ← empty_ranges threads first_empty limit_empty
        ok (record {
          contract = contract;
          shard_id = sid;
          sub_tasks = sub_tasks_of (split_range (limit - first) size first limit);
          next_idx = 0;
          heal_task = [];
          sub_empty_tasks = sub_empty_tasks_of (empties.0);
          stateless_peers = [];
          state = record no_progress { empty_to_fill = empties.1 };
          done = false;
        })
