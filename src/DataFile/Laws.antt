-- ===== src/DataFile/Laws.antt =====
-- The data file as a store of chunks and metadata (ethstorage/data_file.go, Read, Write, ReadMeta
-- and WriteMeta).
use es_node.Prelude.{
  ℕ, ◌+◌, ◌-◌, ◌*◌, ◌≤◌, ◌≡◌, ◌≢◌, sym, ap, subst, ◌∙◌, ◌⊎◌, inl, inr, true, List, length, arith,
  slice, overlay, slice-overlay_self,
}
use es_node.Outcome.{ok}
use es_node.DataFile.{
  DataFile, kv_idx_start, contains, contains_kv, read, write, read_meta, write_meta,
}
use es_node.DataFile.Valid.{IsValid, contains-bounds, chunk_within, contains_kv-bounds, rows_apart}
use es_node.DataFile.Chunks.{
  chunk_pos, meta_pos, IsValid-patched, read-ok, write-ok, read_meta-ok, write_meta-ok,
}
use es_node.DataFile.Frame.{
  WriteOf, kept, put, write-WriteOf, write_meta-WriteOf, read-patched, read_meta-patched,
  contains-patched, contains_kv-patched, kv_idx_start-patched,
}

module _ {df : DataFile} (v : IsValid df) where
  chunks_apart :
      (i j n m : ℕ)
      → contains df i ≡ true
      → contains df j ≡ true
      → i ≢ j
      → n ≤ df.chunk_size
      → m ≤ df.chunk_size
      → (chunk_pos df j + n ≤ chunk_pos df i) ⊎ (chunk_pos df i + m ≤ chunk_pos df j)
  chunks_apart i j n m h k ne le le' =
      let bi = contains-bounds v i h in
      let bj = contains-bounds v j k in
      omega (
        arith,
        rows_apart (j - df.chunk_idx_start) (i - df.chunk_idx_start) df.chunk_size (omega arith),
      )

  metas_apart :
      (i j m : ℕ)
      → contains_kv df i ≡ true
      → contains_kv df j ≡ true
      → i ≢ j
      → m ≤ 32
      → (meta_pos df j + 32 ≤ meta_pos df i) ⊎ (meta_pos df i + m ≤ meta_pos df j)
  metas_apart i j m h k ne le =
      let bi = contains_kv-bounds v i h in
      let bj = contains_kv-bounds v j k in
      omega (arith, rows_apart (j - kv_idx_start df) (i - kv_idx_start df) 32 (omega arith))

  -- A write of a chunk, successful or not, keeps a data file well-formed.
  pub write-IsValid : (i : ℕ) (b : List ℕ) → IsValid (write i b df).1
  write-IsValid i b = keeps (write-WriteOf v i b)
    where
      keeps :
          {df' : DataFile}
          → WriteOf df (chunk_pos df) df.chunk_size i b (contains df i) df'
          → IsValid df'
      keeps (kept e) = subst IsValid (sym e) v
      keeps (put h le e) = subst IsValid (sym e) (IsValid-patched v (chunk_pos df i) b)

  -- A write of metadata, successful or not, keeps a data file well-formed.
  pub write_meta-IsValid : (i : ℕ) (b : List ℕ) → IsValid (write_meta i b df).1
  write_meta-IsValid i b = keeps (write_meta-WriteOf v i b)
    where
      keeps :
          {df' : DataFile} → WriteOf df (meta_pos df) 32 i b (contains_kv df i) df' → IsValid df'
      keeps (kept e) = subst IsValid (sym e) v
      keeps (put h le e) = subst IsValid (sym e) (IsValid-patched v (meta_pos df i) b)

  -- In a valid file a chunk of the file that is written, of at most the chunk size, is read back.
  pub read-write_self :
      (i : ℕ) (b : List ℕ)
      → contains df i ≡ true
      → length b ≤ df.chunk_size
      → read (write i b df).1 i (length b) ≡ ok b
  read-write_self i b h le =
      ap (λ t. read t.1 i (length b)) (write-ok v i b h le)
      ∙ read-ok (IsValid-patched v (chunk_pos df i) b) i (length b)
          (contains-patched df (chunk_pos df i) b i ∙ h) le
      ∙ ap ok (slice-overlay_self df.file.content (chunk_pos df i) b)

  -- A write of a chunk to a valid file, successful or not, changes no read of another chunk.
  pub read-write_ne : (i j n : ℕ) (b : List ℕ) → i ≢ j → read (write i b df).1 j n ≡ read df j n
  read-write_ne i j n b ne = keeps (write-WriteOf v i b)
    where
      keeps :
          {df' : DataFile}
          → WriteOf df (chunk_pos df) df.chunk_size i b (contains df i) df'
          → read df' j n ≡ read df j n
      keeps (kept e) = ap (λ t. read t j n) e
      keeps (put h le e) =
          ap (λ t. read t j n) e
          ∙ read-patched v (chunk_pos df i) b j n
              (λ k le'. chunks_apart i j n (length b) h k ne le' le)

  -- A write of a chunk to a valid file, successful or not, changes no read of metadata.
  pub read_meta-write : (i j : ℕ) (b : List ℕ) → read_meta (write i b df).1 j ≡ read_meta df j
  read_meta-write i j b = keeps (write-WriteOf v i b)
    where
      keeps :
          {df' : DataFile}
          → WriteOf df (chunk_pos df) df.chunk_size i b (contains df i) df'
          → read_meta df' j ≡ read_meta df j
      keeps (kept e) = ap (λ t. read_meta t j) e
      keeps (put h le e) =
          ap (λ t. read_meta t j) e
          ∙ read_meta-patched v (chunk_pos df i) b j (λ k. inr (omega (arith, chunk_within v i h)))

  -- A write of metadata to a valid file, successful or not, changes no read of a chunk.
  pub read-write_meta : (i j n : ℕ) (b : List ℕ) → read (write_meta i b df).1 j n ≡ read df j n
  read-write_meta i j n b = keeps (write_meta-WriteOf v i b)
    where
      keeps :
          {df' : DataFile}
          → WriteOf df (meta_pos df) 32 i b (contains_kv df i) df'
          → read df' j n ≡ read df j n
      keeps (kept e) = ap (λ t. read t j n) e
      keeps (put h le e) =
          ap (λ t. read t j n) e
          ∙ read-patched v (meta_pos df i) b j n (λ k le'. inl (omega (arith, chunk_within v j k)))

  -- In a valid file 32 bytes of metadata written for an entry of the file are read back.
  pub read_meta-write_meta_self :
      (i : ℕ) (b : List ℕ)
      → contains_kv df i ≡ true
      → length b ≡ 32
      → read_meta (write_meta i b df).1 i ≡ ok b
  read_meta-write_meta_self i b h e =
      ap (λ t. read_meta t.1 i) (write_meta-ok v i b h (omega arith))
      ∙ read_meta-ok (IsValid-patched v (meta_pos df i) b) i
          (contains_kv-patched df (meta_pos df i) b i ∙ h)
      ∙ ap
          (λ k. ok (
            slice (overlay df.file.content (meta_pos df i) b)
              (4096 + df.chunk_idx_len * df.chunk_size + (i - k) * 32) 32))
          (kv_idx_start-patched df (meta_pos df i) b)
      ∙ ap (λ n. ok (slice (overlay df.file.content (meta_pos df i) b) (meta_pos df i) n)) (sym e)
      ∙ ap ok (slice-overlay_self df.file.content (meta_pos df i) b)

  -- A write of metadata to a valid file, successful or not, changes no read of the metadata of
  -- another entry.
  pub read_meta-write_meta_ne :
      (i j : ℕ) (b : List ℕ) → i ≢ j → read_meta (write_meta i b df).1 j ≡ read_meta df j
  read_meta-write_meta_ne i j b ne = keeps (write_meta-WriteOf v i b)
    where
      keeps :
          {df' : DataFile}
          → WriteOf df (meta_pos df) 32 i b (contains_kv df i) df'
          → read_meta df' j ≡ read_meta df j
      keeps (kept e) = ap (λ t. read_meta t j) e
      keeps (put h le e) =
          ap (λ t. read_meta t j) e
          ∙ read_meta-patched v (meta_pos df i) b j (λ k. metas_apart i j (length b) h k ne le)
