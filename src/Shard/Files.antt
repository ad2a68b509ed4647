-- ===== src/Shard/Files.antt =====
-- The files of a shard as one store of chunks and metadata (ethstorage/data_shard.go, readChunk,
-- writeChunk, ReadMeta and WriteMeta).
use es_node.Prelude.{
  ℕ, ◌≤◌, ◌≡◌, ◌≢◌, refl, ap, ◌∙◌, inl, inr, Bool, true, false, List, [], ◌∷◌, length, arith,
  Bool-cases, if◌then◌else◌,
}
use es_node.Outcome.{ok}
use es_node.DataFile
use es_node.DataFile.{DataFile}
use es_node.DataFile.Valid.{IsValid}
use es_node.DataFile.Laws.{
  write-IsValid, write_meta-IsValid, read-write_self, read-write_ne, read_meta-write,
  read-write_meta,
}
use es_node.DataFile.Laws
use es_node.DataFile.Chunks.{write-ok, write_meta-ok}
use es_node.DataFile.Frame.{
  contains-write, contains_kv-write, contains-write_meta, contains_kv-write_meta,
}
use es_node.Shard.{read_chunk, write_chunk, read_meta, write_meta}

-- Every file is well-formed, with chunks of the shard's size.
pub record FileOf (chunk_size : ℕ) (df : DataFile) : Type 0 where
  pub valid : IsValid df
  pub same_chunk : df.chunk_size ≡ chunk_size

abbrev pub AllFiles : ℕ → List DataFile → Type 0
AllFiles cs [] = Unit {0}
AllFiles cs (df ∷ dfs) = FileOf cs df × AllFiles cs dfs

-- Some file holds the chunk, or the entry.
unfoldable pub has_chunk : List DataFile → ℕ → Bool
has_chunk [] i = false
has_chunk (df ∷ dfs) i = if DataFile.contains df i then true else has_chunk dfs i

unfoldable pub has_kv : List DataFile → ℕ → Bool
has_kv [] i = false
has_kv (df ∷ dfs) i = if DataFile.contains_kv df i then true else has_kv dfs i

module _ (i : ℕ) (b : List ℕ) where
  pub has_chunk-write_chunk :
      (dfs : List DataFile) (j : ℕ) → has_chunk (write_chunk i b dfs).1 j ≡ has_chunk dfs j
  unfolding has_chunk write_chunk
  has_chunk-write_chunk [] j = refl
  has_chunk-write_chunk (df ∷ dfs) j =
      ground (arith, contains-write df i b j, has_chunk-write_chunk dfs j)

  pub has_kv-write_chunk :
      (dfs : List DataFile) (j : ℕ) → has_kv (write_chunk i b dfs).1 j ≡ has_kv dfs j
  unfolding has_kv write_chunk
  has_kv-write_chunk [] j = refl
  has_kv-write_chunk (df ∷ dfs) j =
      ground (arith, contains_kv-write df i b j, has_kv-write_chunk dfs j)

  pub has_chunk-write_meta :
      (dfs : List DataFile) (j : ℕ) → has_chunk (write_meta i b dfs).1 j ≡ has_chunk dfs j
  unfolding has_chunk write_meta
  has_chunk-write_meta [] j = refl
  has_chunk-write_meta (df ∷ dfs) j =
      ground (arith, contains-write_meta df i b j, has_chunk-write_meta dfs j)

  pub has_kv-write_meta :
      (dfs : List DataFile) (j : ℕ) → has_kv (write_meta i b dfs).1 j ≡ has_kv dfs j
  unfolding has_kv write_meta
  has_kv-write_meta [] j = refl
  has_kv-write_meta (df ∷ dfs) j =
      ground (arith, contains_kv-write_meta df i b j, has_kv-write_meta dfs j)

chunk_size-write :
    (df : DataFile) (i : ℕ) (b : List ℕ) → (DataFile.write i b df).1.chunk_size ≡ df.chunk_size
unfolding DataFile.write
chunk_size-write df i b = ground arith

chunk_size-write_meta :
    (df : DataFile) (i : ℕ) (b : List ℕ) → (DataFile.write_meta i b df).1.chunk_size ≡ df.chunk_size
unfolding DataFile.write_meta
chunk_size-write_meta df i b = ground arith

module _ (cs i : ℕ) (b : List ℕ) where
  FileOf-write : {df : DataFile} → FileOf cs df → FileOf cs (DataFile.write i b df).1
  FileOf-write {df} f = record {
    valid = write-IsValid f.valid i b;
    same_chunk = chunk_size-write df i b ∙ f.same_chunk;
  }

  FileOf-write_meta : {df : DataFile} → FileOf cs df → FileOf cs (DataFile.write_meta i b df).1
  FileOf-write_meta {df} f = record {
    valid = write_meta-IsValid f.valid i b;
    same_chunk = chunk_size-write_meta df i b ∙ f.same_chunk;
  }

  pub AllFiles-write_chunk :
      (dfs : List DataFile) → AllFiles cs dfs → AllFiles cs (write_chunk i b dfs).1
  unfolding write_chunk
  AllFiles-write_chunk [] a = tt
  AllFiles-write_chunk (df ∷ dfs) a = elim (Bool-cases (DataFile.contains df i)) [
    | inl c ↦ rw c (FileOf-write a.0, a.1)
    | inr c ↦ rw c (a.0, AllFiles-write_chunk dfs a.1)
  ]

  pub AllFiles-write_meta :
      (dfs : List DataFile) → AllFiles cs dfs → AllFiles cs (write_meta i b dfs).1
  unfolding write_meta
  AllFiles-write_meta [] a = tt
  AllFiles-write_meta (df ∷ dfs) a = elim (Bool-cases (DataFile.contains_kv df i)) [
    | inl c ↦ rw c (FileOf-write_meta a.0, a.1)
    | inr c ↦ rw c (a.0, AllFiles-write_meta dfs a.1)
  ]

  -- A chunk that some file holds is written, and read back.
  pub read_chunk-write_chunk_self :
      (dfs : List DataFile)
      → AllFiles cs dfs
      → has_chunk dfs i ≡ true
      → length b ≤ cs
      → ((write_chunk i b dfs).0 ≡ ok tt) × (read_chunk (write_chunk i b dfs).1 i (length b) ≡ ok b)
  unfolding read_chunk write_chunk has_chunk
  read_chunk-write_chunk_self [] a h le = absurd (ground arith)
  read_chunk-write_chunk_self (df ∷ dfs) a h le = elim (Bool-cases (DataFile.contains df i)) [
    | inl c ↦ rw c (
      ap (λ t. t.0) (write-ok a.0.valid i b c (omega (arith, a.0.same_chunk))),
      rw (contains-write df i b i, c)
          (read-write_self a.0.valid i b c (omega (arith, a.0.same_chunk))),
    )
    | inr c ↦ rw c (rw c (read_chunk-write_chunk_self dfs a.1 (rw c at h) le))
  ]

  pub read_chunk-write_chunk_ne :
      (dfs : List DataFile) (j n : ℕ)
      → AllFiles cs dfs
      → i ≢ j
      → read_chunk (write_chunk i b dfs).1 j n ≡ read_chunk dfs j n
  unfolding read_chunk write_chunk
  read_chunk-write_chunk_ne [] j n a ne = refl
  read_chunk-write_chunk_ne (df ∷ dfs) j n a ne = elim (Bool-cases (DataFile.contains df i)) [
    | inl c ↦ rw c (rw (contains-write df i b j, read-write_ne a.0.valid i j n b ne))
    | inr c ↦ rw c (rw (read_chunk-write_chunk_ne dfs j n a.1 ne))
  ]

  pub read_meta-write_chunk :
      (dfs : List DataFile) (j : ℕ)
      → AllFiles cs dfs
      → read_meta (write_chunk i b dfs).1 j ≡ read_meta dfs j
  unfolding read_meta write_chunk
  read_meta-write_chunk [] j a = refl
  read_meta-write_chunk (df ∷ dfs) j a = elim (Bool-cases (DataFile.contains df i)) [
    | inl c ↦ rw c (rw (contains_kv-write df i b j, read_meta-write a.0.valid i j b))
    | inr c ↦ rw c (rw (read_meta-write_chunk dfs j a.1))
  ]

  pub read_chunk-write_meta :
      (dfs : List DataFile) (j n : ℕ)
      → AllFiles cs dfs
      → read_chunk (write_meta i b dfs).1 j n ≡ read_chunk dfs j n
  unfolding read_chunk write_meta
  read_chunk-write_meta [] j n a = refl
  read_chunk-write_meta (df ∷ dfs) j n a = elim (Bool-cases (DataFile.contains_kv df i)) [
    | inl c ↦ rw c (rw (contains-write_meta df i b j, read-write_meta a.0.valid i j n b))
    | inr c ↦ rw c (rw (read_chunk-write_meta dfs j n a.1))
  ]

  pub read_meta-write_meta_self :
      (dfs : List DataFile)
      → AllFiles cs dfs
      → has_kv dfs i ≡ true
      → length b ≡ 32
      → ((write_meta i b dfs).0 ≡ ok tt) × (read_meta (write_meta i b dfs).1 i ≡ ok b)
  unfolding read_meta write_meta has_kv
  read_meta-write_meta_self [] a h e = absurd (ground arith)
  read_meta-write_meta_self (df ∷ dfs) a h e = elim (Bool-cases (DataFile.contains_kv df i)) [
    | inl c ↦ rw c (
      ap (λ t. t.0) (write_meta-ok a.0.valid i b c (omega arith)),
      rw (contains_kv-write_meta df i b i, c) (Laws.read_meta-write_meta_self a.0.valid i b c e),
    )
    | inr c ↦ rw c (rw c (read_meta-write_meta_self dfs a.1 (rw c at h) e))
  ]

  pub read_meta-write_meta_ne :
      (dfs : List DataFile) (j : ℕ)
      → AllFiles cs dfs
      → i ≢ j
      → read_meta (write_meta i b dfs).1 j ≡ read_meta dfs j
  unfolding read_meta write_meta
  read_meta-write_meta_ne [] j a ne = refl
  read_meta-write_meta_ne (df ∷ dfs) j a ne = elim (Bool-cases (DataFile.contains_kv df i)) [
    | inl c ↦
        rw c (rw (contains_kv-write_meta df i b j, Laws.read_meta-write_meta_ne a.0.valid i j b ne))
    | inr c ↦ rw c (rw (read_meta-write_meta_ne dfs j a.1 ne))
  ]
