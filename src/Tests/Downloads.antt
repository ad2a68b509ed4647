-- ===== src/Tests/Downloads.antt =====
-- The downloader and its caches.
use es_node.Prelude.{
  sym, some-injective, ℕ, ◌*◌, ◌≡◌, refl, List, [], ◌∷◌, Option, none, some, replicate, arith,
  false,
}
use es_node.Prelude.Int.{pos}
use es_node.Outcome.{ok, err, l1_source_failed}
use es_node.BigEndian.{be_value}
use es_node.Manager.{Map, lookup}
use es_node.Storage.{L1Source}
use es_node.Storage.Commits.{lens_differ}
use es_node.Sync.{elem}
use es_node.Sync.Heal.{Distinct}
use es_node.Downloader.{Blob, BlockBlobs, Event, no_writes, writes_of, events_to_blocks, blob_of}
use es_node.Downloader.Blocks.{numbered, numbers, changes, events_to_blocks-groups}
use es_node.Downloader.Positions.{find_write}
use es_node.Downloader.Unique.{last_write, writes_of-last}
use es_node.Downloader.Fetch.{Round, download_range}
use es_node.Downloader.Loops.{Downloader, download}
use es_node.Downloader.MemCache
use es_node.Downloader.MemCache.{mem_cache}
use es_node.Downloader.DiskCache
use es_node.Downloader.DiskCache.{DiskCache, set_block_blobs}
use es_node.Downloader.Cached.{all_cached, download_range-cached}
use es_node.Downloader.Reached.{Ends, download-Ends, download-never}
use es_node.Downloader.Store.{with_data, set_block_blobs-blobs}
use es_node.Tests.World.{world}
use es_node.Tests.Managers.{small_manager}
use es_node.Tests.Stores.{Items, item_at, list_store, list_store-Laws, list_store-TakesFitting}

abbrev word : ℕ → List ℕ
word n = n ∷ replicate 31 0

abbrev put_event : ℕ → ℕ → ℕ → Event
put_event block idx hash = record {
  block_number = block;
  topics = word 1 ∷ (idx ∷ []) ∷ (128 ∷ []) ∷ replicate 32 hash ∷ [];
}

abbrev some_blob : ℕ → ℕ → Option (List ℕ) → Blob
some_blob idx hash bytes = record {
  kv_index = idx;
  kv_size = 128;
  hash = replicate 32 hash;
  blob_data = bytes;
  data_id = 0;
}

abbrev put_events : List Event
put_events = put_event 5 1 7 ∷ put_event 5 2 8 ∷ put_event 6 1 9 ∷ []

abbrev announced : List (ℕ × Blob)
announced = (5, some_blob 1 7 none) ∷ (5, some_blob 2 8 none) ∷ (6, some_blob 1 9 none) ∷ []

events_to_blocks-groups_example :
    (blocks : List BlockBlobs) × (events_to_blocks (λ n. ok (n * 12)) put_events ≡ ok blocks)
    × (numbered blocks ≡ announced)
    × (numbers blocks ≡ changes 0 announced)
unfolding blob_of be_value
events_to_blocks-groups_example =
    events_to_blocks-groups (λ n. ok (n * 12)) (λ n. (n * 12, refl)) put_events announced
      (omega arith, refl, refl, (omega arith, refl, refl, (omega arith, refl, refl, tt)))

abbrev downloaded : List Blob
downloaded =
    some_blob 1 7 (some (1 ∷ []))
    ∷ some_blob 2 8 (some (2 ∷ []))
    ∷ some_blob 1 9 (some (3 ∷ []))
    ∷ []

writes_of-last_example :
    Distinct (writes_of downloaded no_writes).kv_indices
    × (lens_differ
          (writes_of downloaded no_writes).kv_indices
          (writes_of downloaded no_writes).data_blobs
          (writes_of downloaded no_writes).metas
        ≡ false)
    × ((j : ℕ)
        → find_write j
            (writes_of downloaded no_writes).kv_indices
            (writes_of downloaded no_writes).data_blobs
            (writes_of downloaded no_writes).metas
          ≡ last_write j downloaded)
writes_of-last_example = writes_of-last downloaded (refl, (refl, (refl, tt)))

abbrev calm_l1 : L1Source
calm_l1 = record { get_kv_metas = λ is n. ok []; get_storage_kv_entry_count = λ n. ok 2 }

abbrev quiet_round : Round
quiet_round = record {
  filter_logs = λ a b. ok [];
  header_time = λ n. ok 12;
  download_blobs = λ block attempt. ok [];
  mail_sent = λ b. false;
  l1 = calm_l1;
  schedule = [];
  put_block = ok tt;
  put_blobs = ok tt;
}

abbrev node : Downloader (Map BlockBlobs)
node = record {
  cache = [];
  storage = record {
    download_thread_num = 1;
    shard_manager = small_manager;
    local_l1 = pos 10;
    kv_entry_count = 1;
    blob_metas = [];
  };
  last_download_block = 10;
  last_cache_block = 0;
  finalized_head = 100;
  latest_head = 120;
  min_duration = 500;
  downloaded_blobs = 3;
  saved_block = none;
  saved_blobs = none;
}

download-Ends_example :
    Ends world mem_cache
      (λ k. quiet_round)
      100
      0
      node
      (download world mem_cache 3 (λ k. quiet_round) node)
download-Ends_example =
    download-Ends world mem_cache (λ k. quiet_round) 2 node
      (λ k. record { logs = λ a b. ([], refl); headers = λ n. (12, refl) }) refl (omega arith)
      (omega arith)

abbrev silent_round : Round
silent_round = record quiet_round { filter_logs = λ a b. err l1_source_failed }

download-never_example : download world mem_cache 1000 (λ k. silent_round) node ≡ none
download-never_example =
    download-never world mem_cache (λ k. silent_round) 1000 node (λ k a b. (l1_source_failed, refl))
      refl (omega arith)

-- Block 5 is cached with a blob that the chain does not have any more.
abbrev old_fork : Map BlockBlobs
old_fork =
    (5, record { timestamp = 60; number = 5; blobs = some_blob 9 4 (some (6 ∷ [])) ∷ [] }) ∷ []

abbrev new_fork : List BlockBlobs
new_fork =
    record { timestamp = 12; number = 5; blobs = some_blob 1 7 none ∷ some_blob 2 8 none ∷ [] } ∷ []

abbrev fork_round : Round
fork_round = record quiet_round { filter_logs = λ a b. ok (put_event 5 1 7 ∷ put_event 5 2 8 ∷ []) }

download_range-cached_example :
    download_range world small_manager fork_round mem_cache 1 10 false old_fork
    ≡ (ok (some_blob 9 4 (some (6 ∷ [])) ∷ []), old_fork)
unfolding events_to_blocks blob_of be_value all_cached numbers mem_cache MemCache.blobs lookup
download_range-cached_example =
    download_range-cached world small_manager fork_round mem_cache false 1 10
      (put_event 5 1 7 ∷ put_event 5 2 8 ∷ []) new_fork (some_blob 9 4 (some (6 ∷ [])) ∷ [])
      old_fork refl refl refl

abbrev block_six : BlockBlobs
block_six = record {
  timestamp = 72;
  number = 6;
  blobs = record (some_blob 3 2 none) { data_id = 1 } ∷ [];
}

-- Blocks 5 and 6 with the blobs of the keys 0 and 1.
abbrev disk : DiskCache Items
disk = record {
  store = some (6 ∷ []) ∷ some (7 ∷ []) ∷ [];
  block_lookup =
      (5, record { timestamp = 60; number = 5; blobs = some_blob 9 4 none ∷ [] })
      ∷ (6, block_six)
      ∷ [];
  kv_index_lookup = (9, 0) ∷ (3, 1) ∷ [];
}

abbrev new_block : BlockBlobs
new_block = record {
  timestamp = 61;
  number = 5;
  blobs = some_blob 1 7 (some (8 ∷ [])) ∷ some_blob 2 8 none ∷ [];
}

set_block_blobs-blobs_example :
    ((set_block_blobs list_store new_block disk).0 ≡ ok tt)
    × (DiskCache.blobs list_store 5 (set_block_blobs list_store new_block disk).1
        ≡ some (with_data new_block.blobs))
    × (DiskCache.blobs list_store 6 (set_block_blobs list_store new_block disk).1
        ≡ some (some_blob 3 2 (some (7 ∷ [])) ∷ []))
unfolding lookup item_at DiskCache.blobs DiskCache.read_blobs elem
set_block_blobs-blobs_example =
    set_block_blobs-blobs list_store list_store-Laws list_store-TakesFitting new_block 6 disk
      block_six (some_blob 3 2 (some (7 ∷ [])) ∷ [])
      (
        λ bytes h. rw (sym (some-injective h)) (omega arith, omega arith),
        (λ bytes h. absurd (ground arith), tt),
      )
      refl refl refl (refl, tt)
