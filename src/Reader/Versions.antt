-- ===== src/Reader/Versions.antt =====
-- What GetBlob gives of a blob that the downloader has encoded (ethstorage/blobs/blob_reader.go).
use es_node.Prelude.{ℕ, ◌≤◌, ◌≡◌, List, some, length, pad_to}
use es_node.Outcome.{ok}
use es_node.Externals.{Externals, Laws}
use es_node.ChunkCode.RoundTrip.{IsChunkSize}
use es_node.Downloader.{BlobCache}
use es_node.Storage.{StorageManager}
use es_node.Storage.Blobs.{encode_blob, get_encoding_params, decode_blob-encode_blob}
use es_node.Reader.{get_blob}

module _ {x : Externals} (l : Laws x) {C : Type 0} (cache : BlobCache C) (s : StorageManager)
    (blob hash : List ℕ) (kv_idx : ℕ)
    (known : (get_encoding_params x s.shard_manager kv_idx hash).0 ≤ 3)
    (w : IsChunkSize s.shard_manager.kv_size) (fits : length blob ≤ s.shard_manager.kv_size) where
  -- If the encode type of the entry's shard is supported, and the size of an entry is a multiple of
  -- 64, then a blob that fits can be encoded as downloadRange does it, and a cache that has these
  -- bytes for the entry and the hash makes GetBlob give the blob, filled up with zeros.
  pub get_blob-encode_blob :
      (e : List ℕ) × (encode_blob x s.shard_manager blob hash kv_idx s.shard_manager.kv_size ≡ ok e)
      × ((c : C)
          → cache.get_key_value_by_index kv_idx hash c ≡ some e
          → get_blob x cache s c kv_idx hash ≡ ok (pad_to s.shard_manager.kv_size blob))
  unfolding get_blob
  get_blob-encode_blob =
      let r =
        decode_blob-encode_blob l s.shard_manager blob hash kv_idx s.shard_manager.kv_size known w
          fits in
      (r.0, r.1, λ c h. rw (get_blob, h) r.3)
