-- ===== src/Server.antt =====
-- ethstorage/p2p/protocol/syncserver.go: how a node serves the blobs that the sync client of
-- another node asks for. What limitPeer, ReadMsg and the RLP coding of go-ethereum answer are
-- arguments of the handlers; metrics, logs and the saving of the counters are left out.
pub mod Lists
pub mod Ranges
pub mod Endless
pub mod Handlers
pub mod Delivery
pub mod Served
use es_node.Prelude.{
  ℕ, zero, suc, ◌*◌, ◌/◌, min, Bool, true, false, List, [], ◌∷◌, Option, none, some, length,
  replicate, leb, if◌then◌else◌, ◌+64◌,
}
use es_node.Outcome.{Error, Outcome, ok, err, panic, ◌>>=◌, blob_not_found}
use es_node.Externals.{Externals}
use es_node.Manager.{Map, lookup, insert, get_shard_miner, get_shard_encode_type, shard_ids}
use es_node.Manager.Access.{try_read_meta}
use es_node.Storage.{StorageManager, try_read_encoded}
use es_node.Sync.Client.{BlobPayload}

-- The storage manager is shared with the rest of the node, and only read here.
pub record SyncServer : Type 0 where
  pub provided_blobs : Map ℕ

-- The counter of each shard of the node, as it was saved, or 0.
unfoldable pub loaded_counts : Map ℕ → List ℕ → Map ℕ → Map ℕ
loaded_counts saved [] counts = counts
loaded_counts saved (shard ∷ shards) counts =
    loaded_counts saved shards
      (insert shard (elim (lookup shard saved) [ none ↦ 0 | some n ↦ n ]) counts)

unfoldable pub new_sync_server : StorageManager → Map ℕ → SyncServer
new_sync_server s saved = record {
  provided_blobs = loaded_counts saved (shard_ids s.shard_manager) [];
}

-- The flag of the metadata is not looked at: without the shard the commit is that of no bytes.
unfoldable pub payload_of : Externals → StorageManager → ℕ → List ℕ → Option (List ℕ) → BlobPayload
payload_of x s idx blob commit =
    let shard_idx = idx / s.shard_manager.kv_entries in
    record {
      miner_address = elim (get_shard_miner s.shard_manager shard_idx) [
        | none ↦ replicate 20 0
        | some m ↦ m
      ];
      blob_index = idx;
      blob_commit = x.bytes_to_hash (elim commit [ none ↦ [] | some c ↦ c ]);
      encode_type = (get_shard_encode_type s.shard_manager shard_idx).0;
      encoded_blob = blob;
    }

unfoldable pub blob_by_index : Externals → StorageManager → ℕ → Outcome BlobPayload
blob_by_index x s idx = do
  read ← try_read_encoded s idx s.shard_manager.kv_size
  elim read [
    | none ↦ err blob_not_found
    | some blob ↦ (do
      commit ← try_read_meta s.shard_manager idx
      ok (payload_of x s idx blob commit))
  ]

-- The rest of an answer after one blob.
abbrev pub with_blob : BlobPayload → Outcome (List BlobPayload) → Outcome (List BlobPayload)
with_blob payload rest = rest >>= λ payloads. ok (payload ∷ payloads)

abbrev pub with_blob_later :
    BlobPayload → Option (Outcome (List BlobPayload)) → Option (Outcome (List BlobPayload))
with_blob_later payload none = none
with_blob_later payload (some rest) = some (with_blob payload rest)

-- The loops over the requested indices, for the function that reads a blob: an index that cannot
-- be read is passed over, and an answer is full as soon as its blobs have `maxbytes` bytes.
module _ (read_blob : ℕ → Outcome BlobPayload) (maxbytes : ℕ) where
  unfoldable pub serve_list : List ℕ → ℕ → Outcome (List BlobPayload)
  serve_list [] read_bytes = ok []
  serve_list (idx ∷ idxs) read_bytes = elim (read_blob idx) [
    | err _ ↦ serve_list idxs read_bytes
    | panic ↦ panic
    | ok payload ↦
        let read = read_bytes +64 length payload.encoded_blob in
        elim (leb maxbytes read) [
          | true ↦ ok (payload ∷ [])
          | false ↦ with_blob payload (serve_list idxs read)
        ]
  ]

  -- `for id := origin; id <= limit; id++`, where `none` means that the fuel ran out.
  unfoldable pub serve_range : ℕ → ℕ → ℕ → ℕ → Option (Outcome (List BlobPayload))
  serve_range zero limit id read_bytes = none
  serve_range (suc fuel) limit id read_bytes = elim (leb id limit) [
    | false ↦ some (ok [])
    | true ↦ elim (read_blob id) [
      | err _ ↦ serve_range fuel limit (id +64 1) read_bytes
      | panic ↦ some panic
      | ok payload ↦
          let read = read_bytes +64 length payload.encoded_blob in
          elim (leb maxbytes read) [
            | true ↦ some (ok (payload ∷ []))
            | false ↦ with_blob_later payload (serve_range fuel limit (id +64 1) read)
          ]
    ]
  ]

pub record GetBlobsByRange : Type 0 where
  pub id : ℕ
  pub contract : List ℕ
  pub shard_id : ℕ
  pub origin : ℕ
  pub limit : ℕ
  pub bytes : ℕ

pub record GetBlobsByList : Type 0 where
  pub id : ℕ
  pub contract : List ℕ
  pub shard_id : ℕ
  pub blob_list : List ℕ
  pub bytes : ℕ

-- The answers to both kinds of requests have the same fields.
pub record BlobsAnswer : Type 0 where
  pub id : ℕ
  pub contract : List ℕ
  pub shard_id : ℕ
  pub blobs : List BlobPayload

pub data ReturnCode : Type 0 where
  success read_error invalid_request server_error : ReturnCode

abbrev pub max_request_size : ℕ
max_request_size = 8 * 1024 * 1024
