-- ===== src/Server/Served.antt =====
-- BlobByIndex of ethstorage/p2p/protocol/syncserver.go after a value was written.
use es_node.Prelude.{
  ℕ, ◌-◌, ◌≤◌, ◌≡◌, refl, ap, ◌∙◌, false, List, some, length, pad_to, pad_to_self, replicate, arith,
  bytes_equal, ltb, take_all,
}
use es_node.Outcome.{ok}
use es_node.Externals.{Externals, Laws}
use es_node.Commit.{prepare_commit}
use es_node.Shard
use es_node.Shard.{DataShard}
use es_node.Shard.Access.{sub_slice}
use es_node.Shard.RoundTrip.{IsShard, HoldsKv, left, same_type, same_miner, meta_back, write-eq}
use es_node.Manager.{ShardManager, with_shard, lookup, get_shard_miner, get_shard_encode_type}
use es_node.Manager.Access
use es_node.Manager.Access.{shard_of, find_shard, try_write, try_read_meta, decode_kv}
use es_node.Manager.Maps.{lookup-insert_self}
use es_node.Storage.{StorageManager, sync_check, try_read_encoded}
use es_node.Server.{blob_by_index, payload_of}
use es_node.Server.Delivery.{
  stored_value, read_encoded-left, length-stored_value, decode_kv-stored_value,
}
use es_node.Sync.Client.{BlobPayload, decode_payload}

module _ {x : Externals} (l : Laws x) (storage : StorageManager) (ds : DataShard) (kv : ℕ)
    (found : find_shard storage.shard_manager kv ≡ some ds)
    (same_size : storage.shard_manager.kv_size ≡ ds.kv_size) (s : IsShard ds) (hold : HoldsKv ds kv)
    (b commit : List ℕ) (small : length b ≤ ds.kv_size) (hash : length commit ≡ 32)
    (filled : bytes_equal commit (replicate 32 0) ≡ false)
    (not_empty : bytes_equal commit (prepare_commit (replicate 32 0)) ≡ false) where
  abbrev after : DataShard
  after = left l s kv hold b commit small hash

  abbrev manager : ShardManager
  manager = with_shard storage.shard_manager (shard_of storage.shard_manager kv) after

  -- The storage after the write.
  abbrev written : StorageManager
  written = record storage { shard_manager = (try_write x kv b commit storage.shard_manager).1 }

  written-eq : (try_write x kv b commit storage.shard_manager).1 ≡ manager
  unfolding try_write
  written-eq = rw (found, write-eq l s kv hold b commit small hash)

  again : lookup (shard_of storage.shard_manager kv) manager.shard_map ≡ some after
  again =
      lookup-insert_self (shard_of storage.shard_manager kv) after storage.shard_manager.shard_map

  meta-eq : try_read_meta manager kv ≡ ok (some commit)
  unfolding try_read_meta
  meta-eq = rw (again, (meta_back l s kv hold b commit small hash).1)

  checked : sync_check manager kv ≡ ok tt
  unfolding sync_check
  checked = rw (meta-eq, pad_to_self 32 commit hash, filled, not_empty)

  encoded-eq :
      Access.try_read_encoded manager kv ds.kv_size
      ≡ ok (some (stored_value l s kv hold b commit small hash))
  unfolding Access.try_read_encoded sub_slice
  encoded-eq =
      let size = length-stored_value l s kv hold b commit small hash in
      let within : ltb (length (stored_value l s kv hold b commit small hash)) ds.kv_size ≡ false =
        ground arith in
      let low : ltb ds.kv_size 0 ≡ false = ground arith in
      let whole : ds.kv_size - 0 ≡ ds.kv_size = omega arith in
      rw (again, read_encoded-left l s kv hold b commit small hash, low, within, whole)
        (ap (λ t. ok (some t)) (take_all ds.kv_size _ (omega arith)))

  read-eq :
      Access.try_read_encoded manager kv storage.shard_manager.kv_size
      ≡ ok (some (stored_value l s kv hold b commit small hash))
  read-eq = ap (Access.try_read_encoded manager kv) same_size ∙ encoded-eq

  -- What the node serves for the entry.
  abbrev served : BlobPayload
  served = record {
    miner_address = Shard.miner ds;
    blob_index = kv;
    blob_commit = commit;
    encode_type = Shard.encode_type ds;
    encoded_blob = stored_value l s kv hold b commit small hash;
  }

  blob_by_index-eq : blob_by_index x (record storage { shard_manager = manager }) kv ≡ ok served
  unfolding blob_by_index try_read_encoded payload_of get_shard_miner get_shard_encode_type
  blob_by_index-eq = rw (
    checked,
    read-eq,
    meta-eq,
    again,
    same_miner l s kv hold b commit small hash,
    get_shard_encode_type,
    same_type l s kv hold b commit small hash,
    l.bytes_to_hash_self commit hash,
  )

  -- In a shard that is well-formed and holds the entry, on a node whose storage has the sizes of
  -- that shard, after a write of a value that fits, under a 32-byte commit that is neither zero nor
  -- that of an empty entry, BlobByIndex serves the entry under its index and commit, and any other
  -- node with a well-formed shard for the entry and the same sizes of chunks decodes what is
  -- served to the value, filled up with zeros.
  pub decode_payload-blob_by_index :
      (client : StorageManager) (other : DataShard)
      → find_shard client.shard_manager kv ≡ some other
      → client.shard_manager.chunk_size ≡ other.chunk_size
      → IsShard other
      → other.chunk_size ≡ ds.chunk_size
      → other.chunks_per_kv ≡ ds.chunks_per_kv
      → (p : BlobPayload) × (blob_by_index x written kv ≡ ok p)
        × (p.blob_index ≡ kv)
        × (p.blob_commit ≡ commit)
        × (decode_payload x client p ≡ ok (some (pad_to ds.kv_size b)))
  unfolding decode_payload
  decode_payload-blob_by_index client other held same o size chunks = (
    served,
    ap (λ m. blob_by_index x (record storage { shard_manager = m }) kv) written-eq
        ∙ blob_by_index-eq,
    refl,
    refl,
    rw
        (
          decode_payload,
          decode_kv-stored_value l s kv hold b commit small hash client.shard_manager other held
              same o size chunks,
        )
        refl,
  )
