-- ===== src/Tests/Readers.antt =====
-- The reader of blobs, and the reports of the sync.
use es_node.Prelude.{ℕ, ◌≤◌, ◌≡◌, ◌↔◌, refl, List, [], ◌∷◌, some, replicate, pad_to, arith, false}
use es_node.Prelude.Int.{pos}
use es_node.Outcome.{ok}
use es_node.Manager.{Map, lookup, get_shard_encode_type}
use es_node.Shard
use es_node.Storage.{StorageManager}
use es_node.Storage.Blobs.{encode_blob, get_encoding_params}
use es_node.Downloader.{BlockBlobs}
use es_node.Downloader.MemCache.{mem_cache}
use es_node.Reader.{get_blob}
use es_node.Reader.Versions.{get_blob-encode_blob}
use es_node.Sync.{Task}
use es_node.Sync.Reports.{report_sync_state, report_sync_state-progress}
use es_node.Tests.World.{world, world-Laws, some_commit}
use es_node.Tests.Managers.{small_manager}

abbrev storage : StorageManager
storage = record {
  download_thread_num = 1;
  shard_manager = small_manager;
  local_l1 = pos 5;
  kv_entry_count = 2;
  blob_metas = [];
}

get_blob-encode_blob_example :
    (e : List ℕ) × (encode_blob world small_manager (4 ∷ 5 ∷ []) some_commit 1 128 ≡ ok e)
    × ((c : Map BlockBlobs)
        → mem_cache.get_key_value_by_index 1 some_commit c ≡ some e
        → get_blob world mem_cache storage c 1 some_commit ≡ ok (pad_to 128 (4 ∷ 5 ∷ [])))
unfolding get_encoding_params get_shard_encode_type lookup Shard.encode_type
get_blob-encode_blob_example =
    get_blob-encode_blob world-Laws mem_cache storage (4 ∷ 5 ∷ []) some_commit 1 (omega arith)
      (record { whole = refl; signed = omega arith }) (omega arith)

abbrev half_synced : Task
half_synced = record {
  contract = replicate 20 6;
  shard_id = 0;
  sub_tasks = record { next = 5; first = 0; last = 8; is_running = false; done = false } ∷ [];
  next_idx = 1;
  heal_task = (2, 0) ∷ [];
  sub_empty_tasks = [];
  stateless_peers = [];
  state = record {
    peer_count = pos 1;
    blobs_synced = 4;
    blobs_to_sync = 0;
    sync_progress = 0;
    synced_seconds = 0;
    empty_filled = 0;
    empty_to_fill = 0;
    fill_empty_progress = 0;
    fill_empty_seconds = 0;
  };
  done = false;
}

report_sync_state-progress_example :
    ((report_sync_state 8 half_synced).state.sync_progress ≤ 10000)
    × (((report_sync_state 8 half_synced).state.sync_progress ≡ 10000)
        ↔ ((report_sync_state 8 half_synced).state.blobs_to_sync ≡ 0))
unfolding report_sync_state
report_sync_state-progress_example =
    report_sync_state-progress 8 half_synced (omega arith) (omega arith)
