-- ===== src/Reader.antt =====
-- ethstorage/blobs/blob_reader.go, and getMiningData of ethstorage/miner/worker.go: what a miner
-- reads, from the cache of the downloader or else from the storage.
pub mod Versions
use es_node.Prelude.{
  ℕ, ◌/◌, ◌%◌, ◌^◌, List, [], ◌∷◌, Option, none, some, map, ◌==◌, if◌then◌else◌, ◌-64◌, ◌<<64◌,
}
use es_node.Outcome.{Outcome, ok, err, panic, ◌>>=◌, kv_not_exist}
use es_node.Externals.{Externals}
use es_node.ChunkCode.{calc_encode_key}
use es_node.DataFile.{sample_size_bits}
use es_node.Downloader.{BlobCache}
use es_node.Manager.Access.{try_read}
use es_node.Storage.{StorageManager}
use es_node.Storage.Blobs.{decode_blob}
use es_node.Storage.Reads.{read_sample_unlocked}

-- The bits of the index of a sample in its entry.
abbrev pub sample_len_bits : StorageManager → ℕ
sample_len_bits s = s.shard_manager.kv_size_bits -64 sample_size_bits

-- The index of a sample in its entry: a panic if the number of samples wraps to 0.
unfoldable pub sample_idx_in_kv : ℕ → ℕ → Outcome ℕ
sample_idx_in_kv bits sample_idx =
    if 1 <<64 bits == 0 then panic else ok (sample_idx % (1 <<64 bits))

module _ (x : Externals) {C : Type 0} (cache : BlobCache C) where
  abbrev pub or_not_exist : Option (List ℕ) → Outcome (List ℕ)
  or_not_exist none = err kv_not_exist
  or_not_exist (some blob) = ok blob

  -- A cached blob is decoded; the storage is asked for a blob that fits the hash.
  unfoldable pub get_blob : StorageManager → C → ℕ → List ℕ → Outcome (List ℕ)
  get_blob s c kv_idx kv_hash = elim (cache.get_key_value_by_index kv_idx kv_hash c) [
    | some blob ↦ decode_blob x s.shard_manager blob kv_hash kv_idx s.shard_manager.kv_size
    | none ↦
        try_read x s.shard_manager kv_idx s.shard_manager.kv_size kv_hash >>= λ o. or_not_exist o
  ]

  unfoldable pub read_sample : StorageManager → C → ℕ → ℕ → Outcome (List ℕ)
  read_sample s c shard_idx sample_idx =
      let bits = sample_len_bits s in
      sample_idx_in_kv bits sample_idx >>= λ in_kv.
      cache.get_sample_data (sample_idx / 2 ^ bits) in_kv c >>= λ cached. elim cached [
        | some sample ↦ ok (x.bytes_to_hash sample)
        | none ↦ read_sample_unlocked s shard_idx sample_idx
      ]

-- The five lists of getMiningData, entry by entry.
pub record Sampled : Type 0 where
  pub kv_data : List ℕ
  pub kv_idx : ℕ
  pub in_kv : ℕ
  pub encoding_key : List ℕ
  pub encoded_sample : List ℕ

module _ (x : Externals) (bits : ℕ) (reader : ℕ → List ℕ → Outcome (List ℕ))
    (sample_reader : ℕ → ℕ → Outcome (List ℕ)) (miner : List ℕ) (shard_idx : ℕ) where
  -- The loop over the checks: a panic if the contract answers fewer hashes.
  unfoldable pub sample_entries : List ℕ → List (List ℕ) → Outcome (List Sampled)
  sample_entries [] hashes = ok []
  sample_entries (i ∷ is) [] = panic
  sample_entries (i ∷ is) (hash ∷ hashes) =
      let kv_idx = i / 2 ^ bits in
      reader kv_idx hash >>= λ kv_data. sample_idx_in_kv bits i >>= λ in_kv.
      sample_reader shard_idx i >>= λ sample. sample_entries is hashes >>= λ rest. ok (
        record {
          kv_data = kv_data;
          kv_idx = kv_idx;
          in_kv = in_kv;
          encoding_key = calc_encode_key x hash kv_idx miner;
          encoded_sample = sample;
        }
        ∷ rest)

  -- GetDataHashes asks the contract for the hashes of all entries at once.
  unfoldable pub get_mining_data :
      (List ℕ → Outcome (List (List ℕ))) → List ℕ → Outcome (List Sampled)
  get_mining_data get_data_hashes sample_idxs =
      get_data_hashes (map (λ i. i / 2 ^ bits) sample_idxs) >>= λ hashes.
      sample_entries sample_idxs hashes
