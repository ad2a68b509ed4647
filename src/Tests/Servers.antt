-- ===== src/Tests/Servers.antt =====
-- The sync server.
use es_node.Prelude.{
  ℕ, ◌-◌, ◌^◌, ◌≡◌, refl, [], ◌∷◌, length, none, some, pad_to, replicate, arith, bytes_equal, ◌==◌,
  if◌then◌else◌,
}
use es_node.Prelude.Int.{pos}
use es_node.Outcome.{Outcome, ok, err, meta_read_failed, blob_not_found}
use es_node.Manager.{lookup}
use es_node.Manager.Access.{try_write, try_read_meta}
use es_node.Storage.{StorageManager, try_read_encoded, sync_check}
use es_node.Commit.{prepare_commit}
use es_node.Sync.Client.{BlobPayload, decode_payload}
use es_node.Server.{SyncServer, GetBlobsByRange, success, blob_by_index}
use es_node.Server.Handlers.{handle_get_blobs_by_range, count_provided}
use es_node.Server.Lists.{is_ok, is_err}
use es_node.Server.Ranges.{range_blobs, handle_get_blobs_by_range-answers}
use es_node.Server.Endless.{handle_get_blobs_by_range-never}
use es_node.Server.Served.{decode_payload-blob_by_index}
use es_node.Storage.MetaDownload.{indices_from}
use es_node.Tests.World.{
  world, world-Laws, small_shard, small_shard-IsShard, small_shard-HoldsKv, some_commit,
}
use es_node.Tests.Managers.{small_manager}

abbrev small_storage : StorageManager
small_storage = record {
  download_thread_num = 1;
  shard_manager = small_manager;
  local_l1 = pos 5;
  kv_entry_count = 2;
  blob_metas = [];
}

abbrev no_shards : StorageManager
no_shards = record small_storage { shard_manager = record small_manager { shard_map = [] } }

abbrev some_payload : BlobPayload
some_payload = record {
  miner_address = replicate 20 5;
  blob_index = 4;
  blob_commit = some_commit;
  encode_type = 0;
  encoded_blob = replicate 8 1;
}

-- Only entry 4 can be read.
abbrev one_blob : ℕ → Outcome BlobPayload
one_blob i = if i == 4 then ok some_payload else err blob_not_found

abbrev request : GetBlobsByRange
request = record {
  id = 1;
  contract = replicate 20 6;
  shard_id = 0;
  origin = 3;
  limit = 5;
  bytes = 100;
}

abbrev server : SyncServer
server = record { provided_blobs = (0, 7) ∷ [] }

handle_get_blobs_by_range-answers_example :
    handle_get_blobs_by_range one_blob
      (ok tt)
      (ok [])
      (λ answer. ok (1 ∷ []))
      4
      (λ msg. ok request)
      server
    ≡ some (ok (success, 1 ∷ []), count_provided 0 (length (range_blobs one_blob request)) server)
unfolding indices_from
handle_get_blobs_by_range-answers_example =
    handle_get_blobs_by_range-answers one_blob request
      (
        is_err blob_not_found refl,
        (is_ok some_payload refl (omega arith), (is_err blob_not_found refl, tt)),
      )
      (omega arith) (omega arith) 4 (omega arith) [] (1 ∷ []) server (λ msg. ok request)
      (λ answer. ok (1 ∷ [])) refl refl

abbrev endless_request : GetBlobsByRange
endless_request = record request { limit = 2 ^ 64 - 1 }

handle_get_blobs_by_range-never_example :
    handle_get_blobs_by_range
      (blob_by_index world no_shards)
      (ok tt)
      (ok [])
      (λ answer. ok [])
      1000
      (λ msg. ok endless_request)
      server
    ≡ none
unfolding blob_by_index try_read_encoded sync_check try_read_meta lookup
handle_get_blobs_by_range-never_example =
    handle_get_blobs_by_range-never (blob_by_index world no_shards) (λ i. (meta_read_failed, refl))
      1000 (ok tt) [] endless_request (λ msg. ok endless_request) (λ answer. ok []) server refl refl
      refl (omega arith)

-- The storage after entry 1 was written.
abbrev written_storage : StorageManager
written_storage = record small_storage {
  shard_manager = (try_write world 1 (4 ∷ 5 ∷ []) some_commit small_manager).1;
}

decode_payload-blob_by_index_example :
    (p : BlobPayload) × (blob_by_index world written_storage 1 ≡ ok p)
    × (p.blob_index ≡ 1)
    × (p.blob_commit ≡ some_commit)
    × (decode_payload world small_storage p ≡ ok (some (pad_to 128 (4 ∷ 5 ∷ []))))
unfolding lookup bytes_equal prepare_commit
decode_payload-blob_by_index_example =
    decode_payload-blob_by_index world-Laws small_storage small_shard 1 refl refl
      small_shard-IsShard small_shard-HoldsKv (4 ∷ 5 ∷ []) some_commit (omega arith) refl refl refl
      small_storage small_shard refl refl small_shard-IsShard refl refl
