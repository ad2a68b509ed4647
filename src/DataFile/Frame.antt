-- ===== src/DataFile/Frame.antt =====
-- What the operations of a data file leave unchanged, and what a write leaves to be read
-- (ethstorage/data_file.go).
use es_node.Prelude.{
  ℕ, ◌+◌, ◌-◌, ◌*◌, ◌≤◌, ◌≡◌, refl, sym, ap, ◌∙◌, ◌⊎◌, inl, inr, Bool, true, List, length, arith,
  slice, overlay, Bool-cases, slice-overlay_disjoint,
}
use es_node.Outcome.{ok}
use es_node.DataFile.{
  DataFile, exceeds, kv_idx_start, contains, contains_kv, read, write, read_meta, write_meta,
}
use es_node.DataFile.Valid.{IsValid}
use es_node.DataFile.Chunks.{
  chunk_pos, meta_pos, patched, IsValid-patched, read-ok, write-ok, read_meta-ok, write_meta-ok,
}

pub contains-patched :
    (df : DataFile) (pos : ℕ) (b : List ℕ) (i : ℕ) → contains (patched df pos b) i ≡ contains df i
unfolding contains
contains-patched df pos b i = refl

pub contains_kv-patched :
    (df : DataFile) (pos : ℕ) (b : List ℕ) (i : ℕ)
    → contains_kv (patched df pos b) i ≡ contains_kv df i
unfolding contains_kv
contains_kv-patched df pos b i = refl

pub kv_idx_start-patched :
    (df : DataFile) (pos : ℕ) (b : List ℕ) → kv_idx_start (patched df pos b) ≡ kv_idx_start df
unfolding kv_idx_start
kv_idx_start-patched df pos b = refl

-- A write either changes nothing or writes a chunk of the file.
pub data WriteOf (df : DataFile) (place : ℕ → ℕ) (room : ℕ) (i : ℕ) (b : List ℕ) (inside : Bool)
    (df' : DataFile) : Type 0 where
  kept : df' ≡ df → WriteOf df place room i b inside df'
  put :
      inside ≡ true
      → length b ≤ room
      → df' ≡ patched df (place i) b
      → WriteOf df place room i b inside df'

module _ {df : DataFile} (v : IsValid df) where
  pub write-WriteOf :
      (i : ℕ) (b : List ℕ)
      → WriteOf df (chunk_pos df) df.chunk_size i b (contains df i) (write i b df).1
  write-WriteOf i b = elim (Bool-cases (contains df i)) [
    | inl h ↦ elim (Bool-cases (exceeds (length b) df.chunk_size)) [
      | inl e ↦ kept (unfold write in rw (h, e))
      | inr e ↦ put h (ground arith) (ap (λ t. t.1) (write-ok v i b h (ground arith)))
    ]
    | inr h ↦ kept (unfold write in rw h)
  ]

  pub write_meta-WriteOf :
      (i : ℕ) (b : List ℕ)
      → WriteOf df (meta_pos df) 32 i b (contains_kv df i) (write_meta i b df).1
  write_meta-WriteOf i b = elim (Bool-cases (contains_kv df i)) [
    | inl h ↦ elim (Bool-cases (exceeds (length b) df.meta_size)) [
      | inl e ↦ kept (unfold write_meta in rw (h, e))
      | inr e ↦
          put h (ground (arith, v.meta_bytes))
            (ap (λ t. t.1) (write_meta-ok v i b h (ground (arith, v.meta_bytes))))
    ]
    | inr h ↦ kept (unfold write_meta in rw h)
  ]

  -- A change outside the bytes that a read covers does not show in it.
  pub read-patched :
      (pos : ℕ) (b : List ℕ) (j n : ℕ)
      → (contains df j ≡ true
          → n ≤ df.chunk_size
          → (chunk_pos df j + n ≤ pos) ⊎ (pos + length b ≤ chunk_pos df j))
      → read (patched df pos b) j n ≡ read df j n
  read-patched pos b j n apart = elim (Bool-cases (contains df j)) [
    | inl h ↦ elim (Bool-cases (exceeds n df.chunk_size)) [
      | inl e ↦ unfold read in rw (contains-patched df pos b j, h, e)
      | inr e ↦
          read-ok (IsValid-patched v pos b) j n (contains-patched df pos b j ∙ h) (ground arith)
          ∙ ap ok (
              slice-overlay_disjoint df.file.content pos b (chunk_pos df j) n
                (apart h (ground arith)))
          ∙ sym (read-ok v j n h (ground arith))
    ]
    | inr h ↦ unfold read in rw (contains-patched df pos b j, h)
  ]

  pub read_meta-patched :
      (pos : ℕ) (b : List ℕ) (j : ℕ)
      → (contains_kv df j ≡ true → (meta_pos df j + 32 ≤ pos) ⊎ (pos + length b ≤ meta_pos df j))
      → read_meta (patched df pos b) j ≡ read_meta df j
  read_meta-patched pos b j apart = elim (Bool-cases (contains_kv df j)) [
    | inl h ↦
        read_meta-ok (IsValid-patched v pos b) j (contains_kv-patched df pos b j ∙ h)
        ∙ ap
            (λ k. ok (
              slice (overlay df.file.content pos b)
                (4096 + df.chunk_idx_len * df.chunk_size + (j - k) * 32) 32))
            (kv_idx_start-patched df pos b)
        ∙ ap ok (slice-overlay_disjoint df.file.content pos b (meta_pos df j) 32 (apart h))
        ∙ sym (read_meta-ok v j h)
    | inr h ↦ unfold read_meta in rw (contains_kv-patched df pos b j, h)
  ]

-- No write changes which chunks and entries a file holds.
module _ (df : DataFile) (i : ℕ) (b : List ℕ) (j : ℕ) where
  pub contains-write : contains (write i b df).1 j ≡ contains df j
  unfolding contains write
  contains-write = ground arith

  pub contains_kv-write : contains_kv (write i b df).1 j ≡ contains_kv df j
  unfolding contains_kv write
  contains_kv-write = ground arith

  pub contains-write_meta : contains (write_meta i b df).1 j ≡ contains df j
  unfolding contains write_meta
  contains-write_meta = ground arith

  pub contains_kv-write_meta : contains_kv (write_meta i b df).1 j ≡ contains_kv df j
  unfolding contains_kv write_meta
  contains_kv-write_meta = ground arith
