-- ===== src/Manager/RoundTrip.antt =====
-- Writing, reading, encoding and decoding values through the shard manager
-- (ethstorage/shard_manager.go).
use es_node.Prelude.{
  ℕ, ◌+◌, ◌-◌, ◌*◌, ◌^◌, ◌≤◌, ◌<◌, ◌≡◌, refl, sym, ap, ◌∙◌, Bool, true, false, List, some, length,
  take, drop, pad_to, pad_to_self, length-pad_to, length-take, arith, ltb, u64, u64_fits,
}
use es_node.Outcome.{Outcome, ok, ◌>>=◌}
use es_node.Externals.{Externals, Laws}
use es_node.ChunkCode.{calc_encode_key, encode_chunk, decode_chunk}
use es_node.ChunkCode.RoundTrip.{IsChunkSize, Encodes, decode-encode}
use es_node.Commit.{check_commit}
use es_node.Shard
use es_node.Shard.{DataShard, contains}
use es_node.Shard.Access
use es_node.Shard.Access.{plain, sub_slice, write_chunks, write_with, encoder_for}
use es_node.Shard.Values.{chunk_of, joined, joined-chunk_of, Fits}
use es_node.Shard.RoundTrip.{IsShard, HoldsKv, write-read, calc_encode_key-take, length-chunk_of}
use es_node.Manager.{ShardManager}
use es_node.Manager.Access.{
  shard_of, find_shard, kv_coder, try_write, try_write_encoded, try_read, try_read_meta,
  try_encode_kv, encode_kv, decode_kv, decode_or_encode_kv, code_chunks,
}
use es_node.Manager.Coding.{Fits-joined, chunk_of-joined, code_chunks-joined, write_chunks_ext}
use es_node.Manager.Maps.{lookup-insert_self}

-- The encoded chunks of a value, under any key for each of them.
module _ {x : Externals} (l : Laws x) {cs base total : ℕ} {cb : List ℕ} (f : Fits cs base total cb)
    (w : IsChunkSize cs) (key : ℕ → List ℕ) (t : ℕ) (known : t ≤ 3) where
  coded : (i : ℕ) → (e : List ℕ) × Encodes x cs (chunk_of cs cb i) t (key i) e
  coded i =
      decode-encode l cs w (chunk_of cs cb i) (key i)
        (omega (arith, length-take cs (drop (i * cs) cb))) t known

  abbrev part : ℕ → List ℕ
  part i = (coded i).0

  abbrev whole : List ℕ
  whole = joined part 0 total

  whole_fits : Fits cs base total whole
  whole_fits =
      Fits-joined cs part base total (λ j h. (coded j).1.full) f.bytes f.indices f.chunk_pos

  whole_chunk : (i : ℕ) → i < total → chunk_of cs whole i ≡ part i
  whole_chunk i h = chunk_of-joined cs part total i h (λ j p. (coded j).1.full)

  encodes : (i : ℕ) → i < total → encode_chunk x cs (chunk_of cs cb i) t (key i) ≡ ok (part i)
  encodes i h = (coded i).1.encoded

  decodes :
      (i : ℕ)
      → i < total
      → decode_chunk x cs (chunk_of cs whole i) t (key i) ≡ ok (chunk_of cs cb i)
  decodes i h = rw (whole_chunk i h) (
      (coded i).1.decoded
      ∙ ap ok (pad_to_self cs (chunk_of cs cb i) (length-chunk_of cs total cb i f.whole h)))

module _ {x : Externals} (l : Laws x) (sm : ShardManager) (ds : DataShard) (kv : ℕ)
    (found : find_shard sm kv ≡ some ds) (same_size : sm.chunk_size ≡ ds.chunk_size)
    (s : IsShard ds) (indices : kv * ds.chunks_per_kv + ds.chunks_per_kv < 2 ^ 64) where
  abbrev first_chunk : ℕ
  first_chunk = kv * ds.chunks_per_kv

  value_fits :
      (b : List ℕ) → length b ≡ ds.kv_size → Fits ds.chunk_size first_chunk ds.chunks_per_kv b
  value_fits b e = record {
    whole = e ∙ s.whole;
    bytes = omega (arith, s.whole, s.kv_fits);
    indices = indices;
    chunk_pos = s.chunk_pos;
  }

  pub code-eq :
      (b hash provider : List ℕ) (encode : Bool) (t : ℕ)
      → decode_or_encode_kv x sm kv b hash provider encode t ≡ (
          code_chunks
            (kv_coder x encode ds.chunk_size hash provider t)
            ds.chunk_size
            b
            first_chunk
            0
            ds.chunks_per_kv
            (length b)
          >>= λ r. ok (some r))
  unfolding decode_or_encode_kv
  code-eq b hash provider encode t =
      let start : u64 first_chunk ≡ first_chunk = u64_fits first_chunk (omega arith) in
      rw (found, same_size, start)

  module _ (b hash provider : List ℕ) (full : length b ≡ ds.kv_size) (t : ℕ) (known : t ≤ 3) where
    abbrev f : Fits ds.chunk_size first_chunk ds.chunks_per_kv b
    f = value_fits b full

    abbrev key : ℕ → List ℕ
    key i = calc_encode_key x hash (first_chunk + i) provider

    -- The encoded value.
    abbrev coded_value : List ℕ
    coded_value = whole l f s.chunk_code key t known

    encode_kv-eq : encode_kv x sm kv b hash provider t ≡ ok (some coded_value)
    unfolding encode_kv
    encode_kv-eq =
        code-eq b hash provider true t
        ∙ ap (λ (r : Outcome (List ℕ)). r >>= λ a. ok (some a))
            (code_chunks-joined f (kv_coder x true ds.chunk_size hash provider t)
              (part l f s.chunk_code key t known) (encodes l f s.chunk_code key t known))

    decode_kv-eq : decode_kv x sm kv coded_value hash provider t ≡ ok (some b)
    unfolding decode_kv
    decode_kv-eq =
        code-eq coded_value hash provider false t
        ∙ ap (λ (r : Outcome (List ℕ)). r >>= λ a. ok (some a))
            (code_chunks-joined (whole_fits l f s.chunk_code key t known)
                (kv_coder x false ds.chunk_size hash provider t) (chunk_of ds.chunk_size b)
                (decodes l f s.chunk_code key t known)
              ∙ ap ok joined_all)
      where
        joined_all : joined (chunk_of ds.chunk_size b) 0 ds.chunks_per_kv ≡ b
        joined_all =
            joined-chunk_of ds.chunk_size b ds.chunks_per_kv 0 (omega (arith, f.whole))
            ∙ ap (λ n. drop n b) (zero_times ds.chunk_size)
          where
            zero_times : (n : ℕ) → 0 * n ≡ 0
            zero_times n = omega arith

    -- A full value encoded for an entry of a well-formed shard, for any provider and supported
    -- encode type, has the size of the value, and is decoded to it.
    pub decode_kv-encode_kv :
        (e : List ℕ) × (encode_kv x sm kv b hash provider t ≡ ok (some e))
        × (length e ≡ ds.kv_size)
        × (decode_kv x sm kv e hash provider t ≡ ok (some b))
    decode_kv-encode_kv = (
      coded_value,
      encode_kv-eq,
      (whole_fits l f s.chunk_code key t known).whole ∙ sym s.whole,
      decode_kv-eq,
    )

  module _ (b hash commit : List ℕ) (managed : contains ds kv ≡ true)
      (small : length b ≤ ds.kv_size) (same : take 24 hash ≡ take 24 commit) where
    abbrev padded : List ℕ
    padded = pad_to ds.kv_size b

    abbrev encoded_value : List ℕ
    encoded_value =
        coded_value padded hash (Shard.miner ds) (length-pad_to ds.kv_size b) (Shard.encode_type ds)
          s.known_type

    abbrev padded_fits : Fits ds.chunk_size first_chunk ds.chunks_per_kv padded
    padded_fits = value_fits padded (length-pad_to ds.kv_size b)

    abbrev hash_key : ℕ → List ℕ
    hash_key i = calc_encode_key x hash (first_chunk + i) (Shard.miner ds)

    -- Each chunk of the encoded value is what the encoder of the write makes of the value's chunk.
    coded_equally :
        (i : ℕ)
        → i < ds.chunks_per_kv
        → plain (chunk_of ds.chunk_size encoded_value i) (first_chunk + i)
          ≡ encoder_for x ds commit (chunk_of ds.chunk_size padded i) (first_chunk + i)
    unfolding encoder_for
    coded_equally i h =
        ap ok
          (whole_chunk l padded_fits s.chunk_code hash_key (Shard.encode_type ds) s.known_type i h)
        ∙ sym (encodes l padded_fits s.chunk_code hash_key (Shard.encode_type ds) s.known_type i h)
        ∙ ap (encode_chunk x ds.chunk_size (chunk_of ds.chunk_size padded i) (Shard.encode_type ds))
            (calc_encode_key-take x hash commit (first_chunk + i) (Shard.miner ds) same)

    written_equally :
        write_chunks plain ds.chunk_size encoded_value first_chunk 0 ds.chunks_per_kv ds.data_files
        ≡ write_chunks
            (encoder_for x ds commit)
            ds.chunk_size
            padded
            first_chunk
            0
            ds.chunks_per_kv
            ds.data_files
    written_equally =
        write_chunks_ext
          (whole_fits l padded_fits s.chunk_code hash_key (Shard.encode_type ds) s.known_type)
          padded_fits plain (encoder_for x ds commit) coded_equally ds.chunks_per_kv 0 ds.data_files
          (omega arith)

    write_with-encoded : write_with kv encoded_value commit plain ds ≡ Access.write x kv b commit ds
    unfolding Access.write write_with
    write_with-encoded =
        let start : u64 first_chunk ≡ first_chunk = u64_fits first_chunk (omega arith) in
        let size : length encoded_value ≡ ds.kv_size =
          (whole_fits l (value_fits padded (length-pad_to ds.kv_size b)) s.chunk_code
            (λ i. calc_encode_key x hash (first_chunk + i) (Shard.miner ds)) (Shard.encode_type ds)
            s.known_type).whole
          ∙ sym s.whole in
        let not_large : ltb ds.kv_size (length encoded_value) ≡ false = ground arith in
        let not_large' : ltb ds.kv_size (length b) ≡ false = ground arith in
        rw (
          managed,
          not_large,
          not_large',
          start,
          pad_to_self ds.kv_size encoded_value size,
          written_equally,
        )

    -- In a well-formed shard that manages the entry, a value that fits can be encoded, and
    -- encoding it and then writing the encoded bytes does what writing the value does, if the two
    -- commits agree on their 24 bytes.
    pub try_write_encoded-try_encode_kv :
        (e : List ℕ) × (try_encode_kv x sm kv b hash ≡ ok (some e))
        × (try_write_encoded kv e commit sm ≡ try_write x kv b commit sm)
    unfolding try_write_encoded try_write try_encode_kv
    try_write_encoded-try_encode_kv = (
      encoded_value,
      rw found (
          encode_kv-eq padded hash (Shard.miner ds) (length-pad_to ds.kv_size b)
            (Shard.encode_type ds) s.known_type),
      rw (found, write_with-encoded),
    )

-- A value that was written is read back, prefix by prefix, under a commit that fits it, and its
-- metadata is the commit.
module _ {x : Externals} (l : Laws x) (sm : ShardManager) (ds : DataShard) (kv : ℕ)
    (found : find_shard sm kv ≡ some ds) (s : IsShard ds) (hold : HoldsKv ds kv) (b commit : List ℕ)
    (small : length b ≤ ds.kv_size) (hash : length commit ≡ 32)
    (fitting : check_commit x commit (pad_to ds.kv_size b) ≡ ok tt) (n : ℕ)
    (prefix : n ≤ ds.kv_size) where
  abbrev written : Outcome (Unit {0}) × DataShard
  written = Access.write x kv b commit ds

  shard_read : Access.read x written.1 kv n commit ≡ ok (take n (pad_to ds.kv_size b))
  unfolding Access.read sub_slice
  shard_read =
      let r = write-read l s kv hold b commit small hash commit refl in
      let within : ltb (length (pad_to ds.kv_size b)) n ≡ false =
        ground (arith, length-pad_to ds.kv_size b) in
      let low : ltb n 0 ≡ false = ground arith in
      let minus : n - 0 ≡ n = omega arith in rw (r.2, fitting, low, within, minus)

  -- In a shard that is well-formed and holds the entry, a write of a value that fits, under a
  -- 32-byte commit that passes the check against the value, succeeds; every prefix of the value,
  -- filled up with zeros, is read back under that commit, and the metadata is the commit.
  pub try_read-try_write :
      ((try_write x kv b commit sm).0 ≡ ok true)
      × (try_read x (try_write x kv b commit sm).1 kv n commit
          ≡ ok (some (take n (pad_to ds.kv_size b))))
      × (try_read_meta (try_write x kv b commit sm).1 kv ≡ ok (some commit))
  unfolding try_write try_read try_read_meta
  try_read-try_write =
      let r = write-read l s kv hold b commit small hash commit refl in
      let again = lookup-insert_self (shard_of sm kv) written.1 sm.shard_map in
      (rw (found, r.0), rw (found, again, shard_read), rw (found, again, r.3))
