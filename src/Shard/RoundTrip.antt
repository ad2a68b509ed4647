-- ===== src/Shard/RoundTrip.antt =====
-- Writing a value to a shard and reading it (ethstorage/data_shard.go, Write and Read).
use es_node.Prelude.{
  ℕ, ◌+◌, ◌*◌, ◌^◌, ◌≤◌, ◌<◌, ◌≡◌, refl, sym, ap, subst, ◌∙◌, true, false, List, [], ◌∷◌, ◌++◌,
  length, replicate, take, drop, pad_to, pad_to_self, length-pad_to, length-take, length-drop,
  arith, ltb, u64, u64_fits, some,
}
use es_node.Prelude.Int.{int64}
use es_node.Outcome.{Outcome, ok}
use es_node.Externals.{Externals, Laws}
use es_node.DataFile.{DataFile, no_encode}
use es_node.DataFile.Valid.{row_le}
use es_node.DataFile.Chunks.{exceeds-false}
use es_node.ChunkCode.{calc_encode_key, decode_chunk}
use es_node.ChunkCode.RoundTrip.{IsChunkSize, Encodes, decode-encode}
use es_node.Shard
use es_node.Shard.{DataShard, contains, read_chunk, read_meta, write_meta}
use es_node.Shard.Files.{
  AllFiles, has_chunk, has_kv, has_kv-write_meta, AllFiles-write_meta, read_chunk-write_meta,
  read_meta-write_meta_self,
}
use es_node.Shard.Access.{
  Coder, read_chunks, write_chunks, read_with, write_with, decoder_for, encoder_for, write,
  read_decoded,
}
use es_node.Shard.Values.{
  chunk_of, head_params, head_params-write_meta, Written, Fits, write_chunks-Written,
  read_chunks-eq,
}

-- A shard whose files are well-formed and whose sizes fit.
pub record IsShard (ds : DataShard) : Type 0 where
  pub chunk_pos : 0 < ds.chunk_size
  pub chunk_code : IsChunkSize ds.chunk_size
  pub whole : ds.kv_size ≡ ds.chunks_per_kv * ds.chunk_size
  pub kv_fits : ds.kv_size < 2 ^ 63
  pub files : AllFiles ds.chunk_size ds.data_files
  pub known_type : Shard.encode_type ds ≤ 3

-- The shard manages the entry, and its files hold the chunks and the metadata of the entry.
pub record HoldsKv (ds : DataShard) (kv : ℕ) : Type 0 where
  pub managed : contains ds kv ≡ true
  pub indices : kv * ds.chunks_per_kv + ds.chunks_per_kv < 2 ^ 64
  pub chunks :
      (j : ℕ) → j < ds.chunks_per_kv → has_chunk ds.data_files (kv * ds.chunks_per_kv + j) ≡ true
  pub meta : has_kv ds.data_files kv ≡ true

-- The parameters of a shard are those of its first file.
head_params-some :
    (kv : ℕ) (dfs : List DataFile)
    → has_kv dfs kv ≡ true
    → head_params dfs
      ≡ some (
        elim dfs [ [] ↦ no_encode | df ∷ _ ↦ df.encode_type ],
        elim dfs [ [] ↦ replicate 20 0 | df ∷ _ ↦ df.miner ],
      )
unfolding has_kv head_params
head_params-some kv [] h = absurd (ground arith)
head_params-some kv (df ∷ dfs) h = refl

params_of :
    (ds : DataShard) (kv : ℕ)
    → has_kv ds.data_files kv ≡ true
    → head_params ds.data_files ≡ some (Shard.encode_type ds, Shard.miner ds)
unfolding Shard.encode_type Shard.miner
params_of ds kv h = head_params-some kv ds.data_files h

pub decoder_for-head :
    (x : Externals) (dfs : List DataFile) (cs : ℕ) (commit cdata : List ℕ) (idx t : ℕ) (m : List ℕ)
    → head_params dfs ≡ some (t, m)
    → decoder_for x dfs cs commit cdata idx
      ≡ decode_chunk x cs cdata t (calc_encode_key x commit idx m)
unfolding decoder_for head_params
decoder_for-head x [] cs commit cdata idx t m h = absurd (ground arith)
decoder_for-head x (df ∷ dfs) cs commit cdata idx t m h = ground arith

-- Of a commit the encoding uses the first 24 bytes.
pub calc_encode_key-take :
    (x : Externals) (c c' : List ℕ) (idx : ℕ) (m : List ℕ)
    → take 24 c ≡ take 24 c'
    → calc_encode_key x c idx m ≡ calc_encode_key x c' idx m
unfolding calc_encode_key
calc_encode_key-take x c c' idx m h =
    ap (λ t. x.keccak (pad_to 32 t ++ (x.bytes_to_hash m ++ x.big_to_hash (int64 idx)))) h

pub length-chunk_of :
    (cs total : ℕ) (cb : List ℕ) (i : ℕ)
    → length cb ≡ total * cs
    → i < total
    → length (chunk_of cs cb i) ≡ cs
length-chunk_of cs total cb i e h =
    omega (arith, length-take cs (drop (i * cs) cb), length-drop (i * cs) cb, row_le i total cs h)

-- A read of a whole value goes through its chunks.
pub read_with-eq :
    (ds : DataShard) (kv : ℕ) (decoder : Coder)
    → IsShard ds
    → contains ds kv ≡ true
    → kv * ds.chunks_per_kv + ds.chunks_per_kv < 2 ^ 64
    → read_with ds kv ds.kv_size decoder
      ≡ read_chunks ds.data_files ds.chunk_size decoder
          (kv * ds.chunks_per_kv)
          ds.chunks_per_kv
          (ds.chunks_per_kv * ds.chunk_size)
unfolding read_with
read_with-eq ds kv decoder s managed indices =
    let start : u64 (kv * ds.chunks_per_kv) ≡ kv * ds.chunks_per_kv = u64_fits _ (omega arith) in
    rw (managed, exceeds-false ds.kv_size ds.kv_size (omega arith) s.kv_fits, start)
      (ap (read_chunks ds.data_files ds.chunk_size decoder (kv * ds.chunks_per_kv) ds.chunks_per_kv)
        s.whole)

module _ {x : Externals} (l : Laws x) {ds : DataShard} (s : IsShard ds) (kv : ℕ)
    (hold : HoldsKv ds kv) (b commit : List ℕ) (small : length b ≤ ds.kv_size)
    (hash : length commit ≡ 32) where
  abbrev base : ℕ
  base = kv * ds.chunks_per_kv

  abbrev pub padded : List ℕ
  padded = pad_to ds.kv_size b

  padded_fits : Fits ds.chunk_size base ds.chunks_per_kv padded
  padded_fits = record {
    whole = length-pad_to ds.kv_size b ∙ s.whole;
    bytes = omega (arith, s.whole, s.kv_fits);
    indices = hold.indices;
    chunk_pos = s.chunk_pos;
  }

  abbrev pub key : ℕ → List ℕ
  key i = calc_encode_key x commit (base + i) (Shard.miner ds)

  pub code :
      (i : ℕ)
      → (e : List ℕ) × Encodes x ds.chunk_size
          (chunk_of ds.chunk_size padded i)
          (Shard.encode_type ds)
          (key i)
          e
  code i =
      decode-encode l ds.chunk_size s.chunk_code (chunk_of ds.chunk_size padded i) (key i)
        (omega (arith, length-take ds.chunk_size (drop (i * ds.chunk_size) padded)))
        (Shard.encode_type ds) s.known_type

  -- The chunks as they are stored.
  abbrev pub stored : ℕ → List ℕ
  stored i = (code i).0

  abbrev after_chunks : Outcome (Unit {0}) × List DataFile
  after_chunks =
      write_chunks (encoder_for x ds commit) ds.chunk_size padded base 0 ds.chunks_per_kv
        ds.data_files

  chunks_Written : Written ds.chunk_size base 0 ds.chunks_per_kv stored ds.data_files after_chunks
  chunks_Written =
      write_chunks-Written padded_fits (encoder_for x ds commit) stored
        (λ i h. ((unfold encoder_for in (code i).1.encoded), (code i).1.full)) ds.chunks_per_kv 0
        ds.data_files (omega arith) s.files hold.chunks

  pub meta_back :
      ((write_meta kv commit after_chunks.1).0 ≡ ok tt)
      × (read_meta (write_meta kv commit after_chunks.1).1 kv ≡ ok commit)
  meta_back =
      read_meta-write_meta_self ds.chunk_size kv commit after_chunks.1 chunks_Written.files
        (chunks_Written.same_kvs kv ∙ hold.meta) hash

  -- The shard after the write.
  abbrev pub left : DataShard
  left = record ds { data_files = (write_meta kv commit after_chunks.1).1 }

  pub write-eq : write x kv b commit ds ≡ (ok tt, left)
  unfolding write write_with
  write-eq =
      let not_large : ltb ds.kv_size (length b) ≡ false = ground arith in
      let start : u64 base ≡ base = u64_fits base (omega (arith, hold.indices)) in
      rw (hold.managed, not_large, start, chunks_Written.succeeds, meta_back.0)

  pub head_after : head_params left.data_files ≡ some (Shard.encode_type ds, Shard.miner ds)
  head_after =
      head_params-write_meta kv commit after_chunks.1
      ∙ chunks_Written.same_head
      ∙ params_of ds kv hold.meta

  pub same_miner : Shard.miner left ≡ Shard.miner ds
  same_miner =
      let p =
        params_of left kv (
          has_kv-write_meta kv commit after_chunks.1 kv ∙ chunks_Written.same_kvs kv ∙ hold.meta) in
      cc (p, head_after)

  pub same_type : Shard.encode_type left ≡ Shard.encode_type ds
  same_type =
      let p =
        params_of left kv (
          has_kv-write_meta kv commit after_chunks.1 kv ∙ chunks_Written.same_kvs kv ∙ hold.meta) in
      cc (p, head_after)

  pub IsShard-left : IsShard left
  IsShard-left = record {
    chunk_pos = s.chunk_pos;
    chunk_code = s.chunk_code;
    whole = s.whole;
    kv_fits = s.kv_fits;
    files = AllFiles-write_meta ds.chunk_size kv commit after_chunks.1 chunks_Written.files;
    known_type = subst (λ t. t ≤ 3) (sym same_type) s.known_type;
  }

  pub held :
      (j : ℕ)
      → j < ds.chunks_per_kv
      → read_chunk left.data_files (base + j) ds.chunk_size ≡ ok (stored j)
  held j h =
      read_chunk-write_meta ds.chunk_size kv commit after_chunks.1 (base + j) ds.chunk_size
        chunks_Written.files
      ∙ chunks_Written.inside j (omega arith) h

  module _ (commit' : List ℕ) (same : take 24 commit' ≡ take 24 commit) where
    decodes :
        (j : ℕ)
        → j < ds.chunks_per_kv
        → decoder_for x left.data_files ds.chunk_size commit' (stored j) (base + j)
          ≡ ok (chunk_of ds.chunk_size padded j)
    decodes j h =
        decoder_for-head x left.data_files ds.chunk_size commit' (stored j) (base + j)
          (Shard.encode_type ds) (Shard.miner ds) head_after
        ∙ ap (decode_chunk x ds.chunk_size (stored j) (Shard.encode_type ds))
            (calc_encode_key-take x commit' commit (base + j) (Shard.miner ds) same)
        ∙ (code j).1.decoded
        ∙ ap ok (
            pad_to_self ds.chunk_size (chunk_of ds.chunk_size padded j)
              (length-chunk_of ds.chunk_size ds.chunks_per_kv padded j padded_fits.whole h))

    read_decoded-left : read_decoded x left kv commit' ≡ ok padded
    unfolding read_decoded contains
    read_decoded-left =
        read_with-eq left kv (decoder_for x left.data_files ds.chunk_size commit') IsShard-left
          hold.managed hold.indices
        ∙ read_chunks-eq padded_fits (decoder_for x left.data_files ds.chunk_size commit')
            left.data_files stored held decodes

  -- After a write of a value that fits, under a 32-byte commit, to an entry that a well-formed
  -- shard holds, the write has succeeded, the shard is well-formed, the decoded value is the
  -- written one with zeros behind it, also under another commit with the same 24 bytes, and the
  -- metadata is the commit.
  pub write-read :
      (commit' : List ℕ)
      → take 24 commit' ≡ take 24 commit
      → ((write x kv b commit ds).0 ≡ ok tt)
        × IsShard (write x kv b commit ds).1
        × (read_decoded x (write x kv b commit ds).1 kv commit' ≡ ok (pad_to ds.kv_size b))
        × (read_meta (write x kv b commit ds).1.data_files kv ≡ ok commit)
  write-read commit' same =
      rw write-eq (refl, IsShard-left, read_decoded-left commit' same, meta_back.1)
