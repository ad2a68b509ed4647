-- ===== src/Tests/Managers.antt =====
-- The shard manager and the storage manager.
use es_node.Prelude.{
  ℕ, ◌+◌, ◌*◌, ◌/◌, ◌%◌, ◌<◌, ◌≡◌, refl, get_elem?, Option, none, Bool, true, false, List, [], ◌∷◌,
  length, replicate, pad_to, take, arith, bytes_equal, slice, some,
}
use es_node.Prelude.Int.{ℤ, pos}
use es_node.Outcome.{Outcome, ok}
use es_node.DataFile.{DataFile}
use es_node.ChunkCode.RoundTrip.{Encodes, decode-encode}
use es_node.Commit.{prepare_commit, check_commit, compare_commits}
use es_node.DataFile
use es_node.Disk.{read_at, write_at}
use es_node.BigEndian.{be_value, be_bytes}
use es_node.Shard
use es_node.Shard.Access.{write_with, write_chunks, sub_slice}
use es_node.Shard.{DataShard}
use es_node.Shard.Complete.{Verdict, is_complete-Verdict}
use es_node.Manager.{ShardManager, lookup, insert}
use es_node.Manager.Access.{
  try_write, try_write_encoded, try_read, try_read_meta, try_encode_kv, encode_kv, decode_kv,
}
use es_node.Manager.RoundTrip.{
  decode_kv-encode_kv, try_write_encoded-try_encode_kv, try_read-try_write,
}
use es_node.Storage.{
  StorageManager, L1Source, commit_encoded_blob, commit_wanted, set_metas, contract_meta,
  index_bytes, update_local_metas,
}
use es_node.Storage.Checked.{Matches, commit_encoded_blob-Matches}
use es_node.Storage.Commits.{lens_differ}
use es_node.Storage.Download.{
  Item, every, step_task, perform, download_finished, run_tasks, split_tasks, items, all_done,
  finish_download, first_error, sent,
}
use es_node.Storage.Split.{split_tasks-Assigned}
use es_node.Tests.World.{
  world, world-Laws, small_file, small_shard, small_shard-IsShard, small_shard-HoldsKv, some_commit,
}

abbrev pub small_manager : ShardManager
small_manager = record {
  shard_map = (0, small_shard) ∷ [];
  contract_address = replicate 20 6;
  kv_size_bits = 7;
  kv_size = 128;
  chunks_per_kv_bits = 1;
  chunks_per_kv = 2;
  kv_entries_bits = 1;
  kv_entries = 2;
  chunk_size = 64;
  chunk_size_bits = 6;
}

decode-encode_example : (e : List ℕ) × Encodes world 64 (1 ∷ 2 ∷ 3 ∷ []) 2 (replicate 32 8) e
decode-encode_example =
    decode-encode world-Laws 64 (record { whole = refl; signed = omega arith }) (1 ∷ 2 ∷ 3 ∷ [])
      (replicate 32 8) (omega arith) 2 (omega arith)

decode_kv-encode_kv_example :
    (e : List ℕ) × (encode_kv world small_manager 1 (replicate 128 4) some_commit (replicate 20 1) 1
      ≡ ok (some e))
    × (length e ≡ 128)
    × (decode_kv world small_manager 1 e some_commit (replicate 20 1) 1
        ≡ ok (some (replicate 128 4)))
unfolding lookup
decode_kv-encode_kv_example =
    decode_kv-encode_kv world-Laws small_manager small_shard 1 refl refl small_shard-IsShard
      (omega arith) (replicate 128 4) some_commit (replicate 20 1) refl 1 (omega arith)

try_write_encoded-try_encode_kv_example :
    (e : List ℕ) × (try_encode_kv world small_manager 1 (4 ∷ 5 ∷ []) some_commit ≡ ok (some e))
    × (try_write_encoded 1 e some_commit small_manager
        ≡ try_write world 1 (4 ∷ 5 ∷ []) some_commit small_manager)
unfolding lookup Shard.contains
try_write_encoded-try_encode_kv_example =
    try_write_encoded-try_encode_kv world-Laws small_manager small_shard 1 refl refl
      small_shard-IsShard (omega arith) (4 ∷ 5 ∷ []) some_commit some_commit refl (omega arith) refl

commit_fits : check_commit world some_commit (pad_to 128 (4 ∷ 5 ∷ [])) ≡ ok tt
unfolding check_commit compare_commits bytes_equal
commit_fits = refl

try_read-try_write_example :
    ((try_write world 1 (4 ∷ 5 ∷ []) some_commit small_manager).0 ≡ ok true)
    × (try_read world (try_write world 1 (4 ∷ 5 ∷ []) some_commit small_manager).1 1 3 some_commit
        ≡ ok (some (take 3 (pad_to 128 (4 ∷ 5 ∷ [])))))
    × (try_read_meta (try_write world 1 (4 ∷ 5 ∷ []) some_commit small_manager).1 1
        ≡ ok (some some_commit))
unfolding lookup
try_read-try_write_example =
    try_read-try_write world-Laws small_manager small_shard 1 refl small_shard-IsShard
      small_shard-HoldsKv (4 ∷ 5 ∷ []) some_commit (omega arith) refl commit_fits 3 (omega arith)

is_complete-Verdict_example :
    (v : Bool) × (Shard.is_complete small_shard ≡ some v)
    × Verdict small_shard.data_files
        (Shard.end_chunk_idx small_shard)
        (Shard.start_chunk_idx small_shard)
        v
is_complete-Verdict_example = is_complete-Verdict small_shard

-- The metadata of entry 1 with `some_commit`, as the contract has it.
abbrev contract_one : List ℕ
contract_one = 0 ∷ 0 ∷ 0 ∷ 0 ∷ 1 ∷ 0 ∷ 0 ∷ 0 ∷ replicate 24 9

commit_encoded_blob-ok :
    (commit_encoded_blob 1 (4 ∷ 5 ∷ []) some_commit contract_one small_manager).0 ≡ ok tt
unfolding commit_encoded_blob commit_wanted compare_commits bytes_equal try_read_meta
    try_write_encoded lookup write_with Shard.contains write_chunks sub_slice Shard.write_chunk
    Shard.write_meta Shard.read_meta DataFile.contains DataFile.contains_kv DataFile.write
    DataFile.write_meta DataFile.read_meta be_value read_at write_at slice prepare_commit
commit_encoded_blob-ok = refl

commit_encoded_blob-Matches_example : Matches 1 some_commit contract_one
commit_encoded_blob-Matches_example =
    commit_encoded_blob-Matches 1 (4 ∷ 5 ∷ []) some_commit contract_one small_manager
      commit_encoded_blob-ok

abbrev l1 : L1Source
l1 = record { get_kv_metas = λ is n. ok []; get_storage_kv_entry_count = λ n. ok 2 }

abbrev blob : List ℕ
blob = 4 ∷ 5 ∷ []

-- Both writes fail: the file of the shard is closed.
abbrev closed_file : DataFile
closed_file = record small_file { file = record small_file.file { is_open = false } }

abbrev pub broken_storage : StorageManager
broken_storage = record {
  download_thread_num = 2;
  shard_manager = record small_manager {
    shard_map = (0, record small_shard { data_files = closed_file ∷ [] }) ∷ [];
  };
  local_l1 = pos 5;
  kv_entry_count = 1;
  blob_metas = [];
}

abbrev schedule : List ℕ
schedule = 1 ∷ 0 ∷ []

abbrev commit_list : List (List ℕ)
commit_list = replicate 24 3 ∷ replicate 24 4 ∷ []

abbrev broken_run : Outcome (List (List Item)) × ShardManager
broken_run =
    run_tasks schedule (split_tasks 2 (items (0 ∷ 1 ∷ []) (blob ∷ blob ∷ []) commit_list))
      broken_storage.shard_manager

broken_run-ok : broken_run.0 ≡ ok ([] ∷ [] ∷ [])
unfolding run_tasks split_tasks items every step_task perform try_write_encoded lookup write_with
    Shard.contains write_chunks sub_slice Shard.write_chunk DataFile.contains DataFile.write
    write_at insert
broken_run-ok = refl

-- DownloadFinished takes over the new block all the same, and reports no error.
abbrev result_of : Option (Outcome (Unit {0}) × StorageManager) → Option (Outcome (Unit {0}) × ℤ)
result_of none = none
result_of (some (r, s)) = some (r, s.local_l1)

broken_download :
    result_of (
      download_finished l1 schedule
        (pos 6)
        (0 ∷ 1 ∷ [])
        (blob ∷ blob ∷ [])
        commit_list
        broken_storage)
    ≡ some (ok tt, pos 6)
unfolding download_finished finish_download first_error sent update_local_metas set_metas
    lens_differ all_done contract_meta index_bytes be_bytes run_tasks split_tasks items every
    step_task perform try_write_encoded lookup write_with Shard.contains write_chunks sub_slice
    Shard.write_chunk DataFile.contains DataFile.write write_at insert
broken_download = refl

-- Three blobs for two goroutines.
abbrev three_items : List Item
three_items = items (0 ∷ 1 ∷ 2 ∷ []) (blob ∷ blob ∷ blob ∷ []) (replicate 24 5 ∷ commit_list)

split_tasks-Assigned_example :
    ((i : ℕ)
      → i < length three_items
      → (task : List Item) × (get_elem? (split_tasks 2 three_items) (i % 2) ≡ some task)
        × (get_elem? task (i / 2) ≡ get_elem? three_items i))
    × ((k q : ℕ) (task : List Item)
        → get_elem? (split_tasks 2 three_items) k ≡ some task
        → (k < 2) × (get_elem? task q ≡ get_elem? three_items (k + q * 2)))
split_tasks-Assigned_example = split_tasks-Assigned 2 (omega arith) three_items
