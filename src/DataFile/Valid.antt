-- ===== src/DataFile/Valid.antt =====
-- The layout of a well-formed data file: the header, then the chunks, then the metadata.
use native.Mathlib.Nat.{mul-le-mul_left, mul-le-mul_right, div-le_self}
use native.Mathlib.Decide.{dec_lt}
use es_node.Prelude.{
  ℕ, ◌+◌, ◌-◌, ◌*◌, ◌/◌, ◌^◌, ◌≤◌, ◌<◌, ◌≡◌, ◌≢◌, ◌⊎◌, inl, inr, true, ap, arith, u64_fits,
  sub64_fits,
}
use es_node.DataFile.{
  DataFile, kv_idx_start, kv_idx_end, contains, contains_kv, chunk_offset, meta_offset,
}
use es_node.Disk.{File}

-- The entries of the file.
abbrev pub kv_count : DataFile → ℕ
kv_count df = df.chunk_idx_len * df.chunk_size / df.max_kv_size

-- The bytes that the header, the chunks and the metadata take.
abbrev pub layout_size : DataFile → ℕ
layout_size df = 4096 + df.chunk_idx_len * df.chunk_size + kv_count df * df.meta_size

pub record IsValid (df : DataFile) : Type 0 where
  pub opened : df.file.is_open ≡ true
  pub chunk_pos : 0 < df.chunk_size
  pub kv_pos : 0 < df.max_kv_size
  pub chunk_le_kv : df.chunk_size ≤ df.max_kv_size
  pub meta_bytes : df.meta_size ≡ 32
  pub start_fits : df.chunk_idx_start * df.chunk_size < 2 ^ 63
  pub start_small : df.chunk_idx_start < 2 ^ 63
  pub allocated : layout_size df ≤ df.file.size
  pub size_fits : df.file.size < 2 ^ 63

-- The chunk `k` of `n` chunks of `s` bytes ends inside them.
pub row_le : (k n s : ℕ) → k < n → k * s + s ≤ n * s
row_le k n s h = omega (arith, mul-le-mul_right s h)

-- Of two different rows one ends before the other begins.
pub rows_apart : (i j s : ℕ) → i ≢ j → (i * s + s ≤ j * s) ⊎ (j * s + s ≤ i * s)
rows_apart i j s ne = apart (dec_lt i j)
  where
    apart : Dec (i < j) → (i * s + s ≤ j * s) ⊎ (j * s + s ≤ i * s)
    apart (yes lt) = inl (row_le i j s lt)
    apart (no ge) = inr (row_le j i s (omega arith))

pub le_mul : (a b : ℕ) → 0 < b → a ≤ a * b
le_mul a b h = omega (arith, mul-le-mul_left a h)

module _ {df : DataFile} (v : IsValid df) where
  pub contains-bounds :
      (idx : ℕ)
      → contains df idx ≡ true
      → (df.chunk_idx_start ≤ idx) × (idx < df.chunk_idx_start + df.chunk_idx_len)
  unfolding contains
  contains-bounds idx h = ground (
    arith,
    v.start_small,
    v.allocated,
    v.size_fits,
    le_mul df.chunk_idx_len df.chunk_size v.chunk_pos,
  )

  -- Chunk `idx` stands after the header and the chunks before it.
  pub chunk_offset_lem :
      (idx : ℕ)
      → contains df idx ≡ true
      → chunk_offset df idx ≡ 4096 + (idx - df.chunk_idx_start) * df.chunk_size
  chunk_offset_lem idx h =
      let b = contains-bounds idx h in
      let row = row_le (idx - df.chunk_idx_start) df.chunk_idx_len df.chunk_size (omega arith) in
      let small = le_mul df.chunk_idx_len df.chunk_size v.chunk_pos in
      rw (sub64_fits idx df.chunk_idx_start b.0 (omega arith)) (omega arith)

  -- A chunk ends before the metadata.
  pub chunk_within :
      (idx : ℕ)
      → contains df idx ≡ true
      → 4096 + (idx - df.chunk_idx_start) * df.chunk_size + df.chunk_size
        ≤ 4096 + df.chunk_idx_len * df.chunk_size
  chunk_within idx h =
      let b = contains-bounds idx h in
      omega (arith, row_le (idx - df.chunk_idx_start) df.chunk_idx_len df.chunk_size (omega arith))

  pub kv_idx_start_lem : kv_idx_start df ≡ df.chunk_idx_start * df.chunk_size / df.max_kv_size
  unfolding kv_idx_start
  kv_idx_start_lem = rw (u64_fits (df.chunk_idx_start * df.chunk_size) (omega arith))

  kv_idx_start-lt : kv_idx_start df < 2 ^ 63
  kv_idx_start-lt =
      omega
        (arith, kv_idx_start_lem, div-le_self (df.chunk_idx_start * df.chunk_size) df.max_kv_size)

  -- The metadata are inside the file.
  metas_fit : 4096 + df.chunk_idx_len * df.chunk_size + kv_count df * 32 ≤ df.file.size
  metas_fit = omega (arith, ap (λ (t : ℕ). kv_count df * t) v.meta_bytes)

  kv_idx_end_lem : kv_idx_end df ≡ kv_idx_start df + kv_count df
  unfolding kv_idx_end
  kv_idx_end_lem =
      rw (u64_fits (df.chunk_idx_len * df.chunk_size) (omega arith))
        (u64_fits (kv_idx_start df + kv_count df) (omega (arith, kv_idx_start-lt, metas_fit)))

  pub contains_kv-bounds :
      (kv : ℕ)
      → contains_kv df kv ≡ true
      → (kv_idx_start df ≤ kv) × (kv < kv_idx_start df + kv_count df)
  unfolding contains_kv
  contains_kv-bounds kv h = ground (arith, kv_idx_end_lem)

  -- The metadata of entry `kv` stands after the chunks and the metadata before it.
  pub meta_offset_lem :
      (kv : ℕ)
      → contains_kv df kv ≡ true
      → meta_offset df kv ≡ 4096 + df.chunk_idx_len * df.chunk_size + (kv - kv_idx_start df) * 32
  meta_offset_lem kv h =
      let b = contains_kv-bounds kv h in
      let fits = metas_fit in
      let start = kv_idx_start-lt in
      rw (sub64_fits kv (kv_idx_start df) b.0 (omega arith))
        (omega (arith, ap (λ (t : ℕ). (kv - kv_idx_start df) * t) v.meta_bytes))

  pub meta_within :
      (kv : ℕ)
      → contains_kv df kv ≡ true
      → 4096 + df.chunk_idx_len * df.chunk_size + (kv - kv_idx_start df) * 32 + 32 ≤ df.file.size
  meta_within kv h = let b = contains_kv-bounds kv h in omega (arith, metas_fit)

-- What a change of the file's bytes alone leaves valid.
pub IsValid-file :
    (df : DataFile) (f : File)
    → IsValid df
    → f.is_open ≡ df.file.is_open
    → f.size ≡ df.file.size
    → IsValid (record df { file = f })
IsValid-file df f v o s = ground arith
