-- ===== src/Server/Delivery.antt =====
-- A value from the storage of one node to another (ethstorage/shard_manager.go, TryWrite,
-- ethstorage/p2p/protocol/syncserver.go, BlobByIndex, and ethstorage/p2p/protocol/syncclient.go,
-- decodeKV).
use es_node.Prelude.{
  ℕ, ◌+◌, ◌*◌, ◌≤◌, ◌<◌, ◌≡◌, sym, ap, ◌∙◌, false, List, some, length, drop, pad_to, pad_to_self,
  length-pad_to, arith,
}
use es_node.Outcome.{Outcome, ok, ◌>>=◌}
use es_node.Externals.{Externals, Laws}
use es_node.Shard
use es_node.Shard.{DataShard, contains}
use es_node.Shard.Access.{plain, read_encoded}
use es_node.Shard.Values.{chunk_of, joined, joined-chunk_of, Fits, read_chunks-eq}
use es_node.Shard.RoundTrip.{
  IsShard, HoldsKv, code, stored, left, held, IsShard-left, read_with-eq, length-chunk_of,
}
use es_node.Manager.{ShardManager}
use es_node.Manager.Access.{find_shard, kv_coder, decode_kv}
use es_node.Manager.Coding.{Fits-joined, chunk_of-joined, code_chunks-joined}
use es_node.Manager.RoundTrip.{code-eq}

module _ {x : Externals} (l : Laws x) {ds : DataShard} (s : IsShard ds) (kv : ℕ)
    (hold : HoldsKv ds kv) (b commit : List ℕ) (small : length b ≤ ds.kv_size)
    (hash : length commit ≡ 32) where
  abbrev parts : ℕ → List ℕ
  parts = stored l s kv hold b commit small hash

  -- The bytes of the entry after the write.
  abbrev pub stored_value : List ℕ
  stored_value = joined parts 0 ds.chunks_per_kv

  abbrev after : DataShard
  after = left l s kv hold b commit small hash

  stored_fits : Fits ds.chunk_size (kv * ds.chunks_per_kv) ds.chunks_per_kv stored_value
  stored_fits =
      Fits-joined ds.chunk_size parts (kv * ds.chunks_per_kv) ds.chunks_per_kv
        (λ j h. (code l s kv hold b commit small hash j).1.full) (omega (arith, s.whole, s.kv_fits))
        hold.indices s.chunk_pos

  stored_chunk : (j : ℕ) → j < ds.chunks_per_kv → chunk_of ds.chunk_size stored_value j ≡ parts j
  stored_chunk j h =
      chunk_of-joined ds.chunk_size parts ds.chunks_per_kv j h
        (λ i q. (code l s kv hold b commit small hash i).1.full)

  pub read_encoded-left : read_encoded after kv ds.kv_size ≡ ok stored_value
  unfolding read_encoded contains
  read_encoded-left =
      read_with-eq after kv plain (IsShard-left l s kv hold b commit small hash) hold.managed
        hold.indices
      ∙ read_chunks-eq stored_fits plain after.data_files parts
          (held l s kv hold b commit small hash) (λ j h. ap ok (sym (stored_chunk j h)))

  pub length-stored_value : length stored_value ≡ ds.kv_size
  length-stored_value = stored_fits.whole ∙ sym s.whole

  all_chunks :
      joined (chunk_of ds.chunk_size (pad_to ds.kv_size b)) 0 ds.chunks_per_kv ≡ pad_to ds.kv_size b
  all_chunks =
      joined-chunk_of ds.chunk_size (pad_to ds.kv_size b) ds.chunks_per_kv 0
        (omega (arith, length-pad_to ds.kv_size b, s.whole))
      ∙ ap (λ n. drop n (pad_to ds.kv_size b)) (zero_times ds.chunk_size)
    where
      zero_times : (n : ℕ) → 0 * n ≡ 0
      zero_times n = omega arith

  -- Any node with chunks of the same size decodes the stored bytes.
  pub decode_kv-stored_value :
      (sm : ShardManager) (other : DataShard)
      → find_shard sm kv ≡ some other
      → sm.chunk_size ≡ other.chunk_size
      → IsShard other
      → other.chunk_size ≡ ds.chunk_size
      → other.chunks_per_kv ≡ ds.chunks_per_kv
      → decode_kv x sm kv stored_value commit (Shard.miner ds) (Shard.encode_type ds)
        ≡ ok (some (pad_to ds.kv_size b))
  unfolding decode_kv
  decode_kv-stored_value sm other found same o size chunks =
      code-eq l sm other kv found same o (rw chunks hold.indices) stored_value commit
        (Shard.miner ds) false (Shard.encode_type ds)
      ∙ rw (size, chunks)
          (ap (λ (r : Outcome (List ℕ)). r >>= λ a. ok (some a))
            (code_chunks-joined stored_fits
                (kv_coder x false ds.chunk_size commit (Shard.miner ds) (Shard.encode_type ds))
                (chunk_of ds.chunk_size (pad_to ds.kv_size b)) decodes
              ∙ ap ok all_chunks))
    where
      decodes :
          (j : ℕ)
          → j < ds.chunks_per_kv
          → kv_coder x false ds.chunk_size commit
              (Shard.miner ds)
              (Shard.encode_type ds)
              (chunk_of ds.chunk_size stored_value j)
              (kv * ds.chunks_per_kv + j)
            ≡ ok (chunk_of ds.chunk_size (pad_to ds.kv_size b) j)
      decodes j h = rw (stored_chunk j h) (
          (code l s kv hold b commit small hash j).1.decoded
          ∙ ap ok (
              pad_to_self ds.chunk_size (chunk_of ds.chunk_size (pad_to ds.kv_size b) j) (
                length-chunk_of ds.chunk_size ds.chunks_per_kv (pad_to ds.kv_size b) j
                  (length-pad_to ds.kv_size b ∙ s.whole) h)))
