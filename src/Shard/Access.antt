-- ===== src/Shard/Access.antt =====
-- ethstorage/data_shard.go: reading and writing whole values, with the encoding of their chunks.
use es_node.Prelude.{
  ℕ, zero, suc, ◌+◌, ◌-◌, min, not, List, [], ◌∷◌, ◌++◌, length, take, drop, pad_to, ltb, leb, ◌==◌,
  if◌then◌else◌, ◌+64◌, ◌*64◌,
}
use es_node.Outcome.{
  Outcome, ok, err, panic, ◌>>=◌, ◌>>◌, Exec, then_do, chunk_idx_out_of_range, read_len_too_large,
  kv_not_found, write_data_too_large,
}
use es_node.Externals.{Externals}
use es_node.DataFile.{DataFile, exceeds}
use es_node.ChunkCode.{calc_encode_key, encode_chunk, decode_chunk}
use es_node.Commit.{check_commit}
use es_node.Shard
use es_node.Shard.{DataShard}

-- A function from the bytes of a chunk and its index to bytes, which may panic.
abbrev pub Coder : Type 0
Coder = List ℕ → ℕ → Outcome (List ℕ)

-- bs[lo:hi]
unfoldable pub sub_slice : List ℕ → ℕ → ℕ → Outcome (List ℕ)
sub_slice bs lo hi =
    if ltb hi lo
    then panic
    else if ltb (length bs) hi
    then panic
    else ok (take (hi - lo) (drop lo bs))

abbrev pub plain : Coder
plain cdata chunk_idx = ok cdata

-- The chunks i, i + 1, ... of a value, `n` of them, while bytes are left to read.
unfoldable pub read_chunks : List DataFile → ℕ → Coder → ℕ → ℕ → ℕ → Outcome (List ℕ)
read_chunks dfs chunk_size decoder base zero read_len = ok []
read_chunks dfs chunk_size decoder base (suc n) read_len =
    let len = min read_len chunk_size in
    let rest = read_chunks dfs chunk_size decoder (base +64 1) n (read_len - len) in
    if read_len == 0 then ok [] else (do
      cdata ← Shard.read_chunk dfs base len
      decoded ← decoder cdata base
      tail ← rest
      ok (decoded ++ tail))

unfoldable pub read_with : DataShard → ℕ → ℕ → Coder → Outcome (List ℕ)
read_with ds kv_idx read_len decoder =
    if not (Shard.contains ds kv_idx)
    then err kv_not_found
    else if exceeds read_len ds.kv_size
    then err read_len_too_large
    else read_chunks ds.data_files ds.chunk_size decoder (kv_idx *64 ds.chunks_per_kv)
        ds.chunks_per_kv read_len

unfoldable pub read_chunk_with : DataShard → ℕ → ℕ → Coder → Outcome (List ℕ)
read_chunk_with ds kv_idx chunk_idx decoder =
    if not (Shard.contains ds kv_idx)
    then err kv_not_found
    else if leb ds.chunks_per_kv chunk_idx
    then err chunk_idx_out_of_range
    else (do
      let idx = kv_idx *64 ds.chunks_per_kv +64 chunk_idx
      cdata ← Shard.read_chunk ds.data_files idx ds.chunk_size
      decoder cdata idx)

-- The chunks of `cb` from index i on, `n` of them, encoded and written in turn.
unfoldable pub write_chunks : Coder → ℕ → List ℕ → ℕ → ℕ → ℕ → Exec (List DataFile) (Unit {0})
write_chunks encoder chunk_size cb base i zero dfs = (ok tt, dfs)
write_chunks encoder chunk_size cb base i (suc n) dfs =
    then_do
      (
        do
          cdata ← sub_slice cb (i *64 chunk_size) ((i +64 1) *64 chunk_size)
          encoder cdata (base +64 i),
        dfs,
      )
      λ encoded fs.
        then_do (Shard.write_chunk (base +64 i) encoded fs)
          λ _ fs'. write_chunks encoder chunk_size cb base (i + 1) n fs'

abbrev with_files : DataShard → Outcome (Unit {0}) × List DataFile → Outcome (Unit {0}) × DataShard
with_files ds r = (r.0, record ds { data_files = r.1 })

-- Not atomic: the chunks written before an error stay written.
unfoldable pub write_with : ℕ → List ℕ → List ℕ → Coder → Exec DataShard (Unit {0})
write_with kv_idx b commit encoder ds =
    if not (Shard.contains ds kv_idx)
    then (err kv_not_found, ds)
    else if ltb ds.kv_size (length b)
    then (err write_data_too_large, ds)
    else with_files ds (
        then_do
          (write_chunks encoder ds.chunk_size (pad_to ds.kv_size b) (kv_idx *64 ds.chunks_per_kv) 0
            ds.chunks_per_kv ds.data_files)
          λ _ fs. Shard.write_meta kv_idx commit fs)

module _ (x : Externals) where
  -- The decoder reads the first file's fields: a panic if there is none.
  unfoldable pub decoder_for : List DataFile → ℕ → List ℕ → Coder
  decoder_for [] chunk_size commit cdata chunk_idx = panic
  decoder_for (df ∷ _) chunk_size commit cdata chunk_idx =
      decode_chunk x chunk_size cdata df.encode_type (calc_encode_key x commit chunk_idx df.miner)

  unfoldable pub encoder_for : DataShard → List ℕ → Coder
  encoder_for ds commit cdata chunk_idx =
      encode_chunk x ds.chunk_size cdata (Shard.encode_type ds)
        (calc_encode_key x commit chunk_idx (Shard.miner ds))

  unfoldable pub write : ℕ → List ℕ → List ℕ → Exec DataShard (Unit {0})
  write kv_idx b commit ds = write_with kv_idx b commit (encoder_for ds commit) ds

  unfoldable pub read_decoded : DataShard → ℕ → List ℕ → Outcome (List ℕ)
  read_decoded ds kv_idx commit =
      read_with ds kv_idx ds.kv_size (decoder_for ds.data_files ds.chunk_size commit)

  unfoldable pub read : DataShard → ℕ → ℕ → List ℕ → Outcome (List ℕ)
  read ds kv_idx read_len commit = do
    bs ← read_decoded ds kv_idx commit
    check_commit x commit bs
    sub_slice bs 0 read_len

  unfoldable pub read_with_meta : DataShard → ℕ → ℕ → Outcome (List ℕ × List ℕ)
  read_with_meta ds kv_idx read_len = do
    commit ← Shard.read_meta ds.data_files kv_idx
    bs ← read_decoded ds kv_idx (x.bytes_to_hash commit)
    check_commit x (x.bytes_to_hash commit) bs
    prefix ← sub_slice bs 0 read_len
    ok (prefix, commit)

  unfoldable pub read_chunk : DataShard → ℕ → ℕ → List ℕ → Outcome (List ℕ)
  read_chunk ds kv_idx chunk_idx commit =
      read_chunk_with ds kv_idx chunk_idx (decoder_for ds.data_files ds.chunk_size commit)

unfoldable pub read_encoded : DataShard → ℕ → ℕ → Outcome (List ℕ)
read_encoded ds kv_idx read_len = read_with ds kv_idx read_len plain

unfoldable pub read_chunk_encoded : DataShard → ℕ → ℕ → Outcome (List ℕ)
read_chunk_encoded ds kv_idx chunk_idx = read_chunk_with ds kv_idx chunk_idx plain
