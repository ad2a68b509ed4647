-- ===== src/Storage/Blobs.antt =====
-- ethstorage/storage_manager.go, EncodeBlob and DecodeBlob: coding a blob as one chunk.
use es_node.Prelude.{ℕ, ◌/◌, ◌^◌, ◌≤◌, ◌≡◌, List, length, Option, none, some, replicate, pad_to}
use es_node.Outcome.{Outcome, ok}
use es_node.Externals.{Externals, Laws}
use es_node.ChunkCode.{calc_encode_key, encode_chunk, decode_chunk}
use es_node.ChunkCode.RoundTrip.{IsChunkSize, decode-encode}
use es_node.Manager.{ShardManager, get_shard_miner, get_shard_encode_type}

-- The zero address of a shard that is not there.
abbrev or_zero_address : Option (List ℕ) → List ℕ
or_zero_address none = replicate 20 0
or_zero_address (some a) = a

module _ (x : Externals) where
  -- The index of the entry stands for the index of its chunk.
  unfoldable pub get_encoding_params : ShardManager → ℕ → List ℕ → ℕ × List ℕ
  get_encoding_params sm kv_idx blob_hash =
      let shard_idx = kv_idx / 2 ^ sm.kv_entries_bits in
      (
        (get_shard_encode_type sm shard_idx).0,
        calc_encode_key x blob_hash kv_idx (or_zero_address (get_shard_miner sm shard_idx)),
      )

  unfoldable pub encode_blob : ShardManager → List ℕ → List ℕ → ℕ → ℕ → Outcome (List ℕ)
  encode_blob sm blob blob_hash kv_idx size =
      let (t, key) = get_encoding_params sm kv_idx blob_hash in encode_chunk x size blob t key

  unfoldable pub decode_blob : ShardManager → List ℕ → List ℕ → ℕ → ℕ → Outcome (List ℕ)
  decode_blob sm blob blob_hash kv_idx size =
      let (t, key) = get_encoding_params sm kv_idx blob_hash in decode_chunk x size blob t key

module _ {x : Externals} (l : Laws x) (sm : ShardManager) (blob blob_hash : List ℕ)
    (kv_idx size : ℕ) (known : (get_encoding_params x sm kv_idx blob_hash).0 ≤ 3)
    (w : IsChunkSize size) (fits : length blob ≤ size) where
  -- If the encode type of the entry's shard is supported, a blob that fits a size that is a
  -- multiple of 64 is encoded to that size, and decoded to itself with zeros behind it.
  pub decode_blob-encode_blob :
      (e : List ℕ) × (encode_blob x sm blob blob_hash kv_idx size ≡ ok e)
      × (length e ≡ size)
      × (decode_blob x sm e blob_hash kv_idx size ≡ ok (pad_to size blob))
  unfolding encode_blob decode_blob
  decode_blob-encode_blob =
      let (t, key) = get_encoding_params x sm kv_idx blob_hash in
      let (e, r) = decode-encode l size w blob key fits t known in (e, r.encoded, r.full, r.decoded)
