-- ===== src/DataFile/Chunks.antt =====
-- Chunks read after chunks and metadata written (ethstorage/data_file.go, Read, Write, ReadMeta,
-- WriteMeta).
use es_node.Prelude.{
  ℕ, ◌+◌, ◌-◌, ◌*◌, ◌^◌, ◌≤◌, ◌<◌, ◌≡◌, refl, sym, subst, true, false, List, length, arith, slice,
  overlay,
}
use es_node.Outcome.{ok}
use es_node.Disk.{read_at}
use es_node.Disk.Laws.{Holds, read_at-ok, write_at-ok}
use es_node.DataFile.{
  DataFile, exceeds, kv_idx_start, contains, contains_kv, read, write, read_meta, write_meta,
}
use es_node.DataFile.Valid.{
  IsValid, chunk_offset_lem, chunk_within, meta_offset_lem, meta_within, IsValid-file,
}

-- The bytes of a chunk, and of the metadata of an entry, as they stand in the file.
abbrev pub chunk_pos : DataFile → ℕ → ℕ
chunk_pos df idx = 4096 + (idx - df.chunk_idx_start) * df.chunk_size

abbrev pub meta_pos : DataFile → ℕ → ℕ
meta_pos df kv = 4096 + df.chunk_idx_len * df.chunk_size + (kv - kv_idx_start df) * 32

pub exceeds-false : (n w : ℕ) → n ≤ w → w < 2 ^ 63 → exceeds n w ≡ false
exceeds-false n w h k = ground arith

-- The file with its content changed at one place.
abbrev pub patched : DataFile → ℕ → List ℕ → DataFile
patched df pos b = record df { file = record df.file { content = overlay df.file.content pos b } }

module _ {df : DataFile} (v : IsValid df) where
  pub IsValid-patched : (pos : ℕ) (b : List ℕ) → IsValid (patched df pos b)
  IsValid-patched pos b =
      IsValid-file df (record df.file { content = overlay df.file.content pos b }) v refl refl

  Holds-chunk :
      (idx n : ℕ) → contains df idx ≡ true → n ≤ df.chunk_size → Holds df.file (chunk_pos df idx) n
  Holds-chunk idx n h le =
      let w = chunk_within v idx h in
      record {
        opened = v.opened;
        within = omega (arith, v.allocated);
        signed = omega (arith, v.allocated, v.size_fits);
      }

  Holds-meta :
      (kv : ℕ) → contains_kv df kv ≡ true → (n : ℕ) → n ≤ 32 → Holds df.file (meta_pos df kv) n
  Holds-meta kv h n le =
      let w = meta_within v kv h in
      record { opened = v.opened; within = omega arith; signed = omega (arith, v.size_fits) }

  -- A read inside a chunk of the file returns its bytes.
  pub read-ok :
      (idx n : ℕ)
      → contains df idx ≡ true
      → n ≤ df.chunk_size
      → read df idx n ≡ ok (slice df.file.content (chunk_pos df idx) n)
  unfolding read
  read-ok idx n h le =
      rw
        (
          h,
          exceeds-false n df.chunk_size le
              (omega (arith, chunk_within v idx h, v.allocated, v.size_fits)),
          chunk_offset_lem v idx h,
        )
        (read_at-ok df.file (chunk_pos df idx) n (Holds-chunk idx n h le))

  pub write-ok :
      (idx : ℕ) (b : List ℕ)
      → contains df idx ≡ true
      → length b ≤ df.chunk_size
      → write idx b df ≡ (ok tt, patched df (chunk_pos df idx) b)
  unfolding write
  write-ok idx b h le = rw (
    h,
    exceeds-false (length b) df.chunk_size le
        (omega (arith, chunk_within v idx h, v.allocated, v.size_fits)),
    chunk_offset_lem v idx h,
    write_at-ok df.file (chunk_pos df idx) b (Holds-chunk idx (length b) h le),
  )

  pub read_meta-ok :
      (kv : ℕ)
      → contains_kv df kv ≡ true
      → read_meta df kv ≡ ok (slice df.file.content (meta_pos df kv) 32)
  unfolding read_meta
  read_meta-ok kv h =
      rw (h, meta_offset_lem v kv h)
        (subst
          (λ n. read_at df.file (meta_pos df kv) n ≡ ok (slice df.file.content (meta_pos df kv) 32))
          (sym v.meta_bytes)
          (read_at-ok df.file (meta_pos df kv) 32 (Holds-meta kv h 32 (omega arith))))

  pub write_meta-ok :
      (kv : ℕ) (b : List ℕ)
      → contains_kv df kv ≡ true
      → length b ≤ 32
      → write_meta kv b df ≡ (ok tt, patched df (meta_pos df kv) b)
  unfolding write_meta
  write_meta-ok kv b h le = rw (
    h,
    exceeds-false (length b) df.meta_size (omega (arith, v.meta_bytes))
        (omega (arith, v.meta_bytes)),
    meta_offset_lem v kv h,
    write_at-ok df.file (meta_pos df kv) b (Holds-meta kv h (length b) le),
  )
