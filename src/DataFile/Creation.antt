-- ===== src/DataFile/Creation.antt =====
-- ethstorage/data_file.go, Create. `os.Create` has been called before (its result is the argument
-- `created`), and the third-party `fallocate.Fallocate(file, offset, length)` is a parameter.
use native.Mathlib.Nat.{div-le_of_le-mul, mul-le-mul_left}
use es_node.Prelude.{
  ℕ, ◌+◌, ◌*◌, ◌/◌, ◌%◌, ◌^◌, ◌≤◌, ◌<◌, ◌≡◌, refl, sym, ap, subst, ◌∙◌, true, List, length, ltb,
  ◌==◌, not, ◌||◌, arith, overlay, if◌then◌else◌, ◌*64◌, ◌+64◌, u64_fits,
}
use es_node.Outcome.{
  Outcome, ok, panic, ◌>>=◌, ◌>>◌, refuse_if, >>=-eq-ok, chunk_size_too_large, len_not_multiple,
  start_not_multiple, not_power_of_two,
}
use es_node.Disk.{File}
use es_node.Pow2.{is_pow2n}
use es_node.DataFile.{DataFile, header_size}
use es_node.DataFile.Valid.{IsValid, IsValid-file}
use es_node.DataFile.Header.{write_header, header_of, header_bytes, open_data_file}
use es_node.DataFile.Header.RoundTrip.{IsStorable, write_header-ok, open-write_header}

pub record CreateArgs : Type 0 where
  pub chunk_idx_start : ℕ
  pub chunk_idx_len : ℕ
  pub max_kv_size : ℕ
  pub encode_type : ℕ
  pub miner : List ℕ
  pub chunk_size : ℕ

-- x % y on `uint64` panics at y = 0.
abbrev mod64 : ℕ → ℕ → Outcome ℕ
mod64 x y = if y == 0 then panic else ok (x % y)

unfoldable pub check_args : CreateArgs → Outcome (Unit {0})
check_args a = do
  refuse_if (ltb a.max_kv_size a.chunk_size) chunk_size_too_large
  len_rest ← mod64 (a.chunk_idx_len *64 a.chunk_size) a.max_kv_size
  refuse_if (not (len_rest == 0)) len_not_multiple
  start_rest ← mod64 (a.chunk_idx_start *64 a.chunk_size) a.max_kv_size
  refuse_if (not (start_rest == 0)) start_not_multiple
  refuse_if (not (is_pow2n a.chunk_size) || not (is_pow2n a.max_kv_size)) not_power_of_two

abbrev pub fresh : CreateArgs → File → DataFile
fresh a f = record {
  file = f;
  chunk_idx_start = a.chunk_idx_start;
  chunk_idx_len = a.chunk_idx_len;
  encode_type = a.encode_type;
  max_kv_size = a.max_kv_size;
  chunk_size = a.chunk_size;
  meta_size = 32;
  miner = a.miner;
}

module _ (fallocate : File → ℕ → ℕ → Outcome File) where
  -- The error of `writeHeader` is dropped.
  unfoldable pub create : CreateArgs → Outcome File → Outcome DataFile
  create a created = do
    check_args a
    file ← created
    file ← fallocate file ((a.chunk_size +64 32) *64 a.chunk_idx_len) header_size
    ok (write_header (fresh a file)).1

-- What the documentation of `Fallocate` says: the file covers the range after a success.
pub record Allocates (fallocate : File → ℕ → ℕ → Outcome File) : Type 0 where
  pub covers : (f f' : File) (off len : ℕ) → fallocate f off len ≡ ok f' → off + len ≤ f'.size
  pub stays_open :
      (f f' : File) (off len : ℕ) → fallocate f off len ≡ ok f' → f'.is_open ≡ f.is_open
  pub signed : (f f' : File) (off len : ℕ) → fallocate f off len ≡ ok f' → f'.size < 2 ^ 63

-- Arguments with a chunk size above 0, indices, sizes and products below 2 ^ 63, so that nothing
-- wraps, and the 20 bytes of an address as the miner.
pub record FitsWords (a : CreateArgs) : Type 0 where
  pub chunk_pos : 0 < a.chunk_size
  pub start_fits : a.chunk_idx_start * a.chunk_size < 2 ^ 63
  pub start_small : a.chunk_idx_start < 2 ^ 63
  pub len_fits : (a.chunk_size + 32) * a.chunk_idx_len < 2 ^ 63
  pub len_small : a.chunk_idx_len < 2 ^ 63
  pub kv_small : a.max_kv_size < 2 ^ 63
  pub miner_bytes : length a.miner ≡ 20

fresh-IsValid :
    (a : CreateArgs) (f : File)
    → FitsWords a
    → a.chunk_size ≤ a.max_kv_size
    → f.is_open ≡ true
    → 4096 + (a.chunk_size + 32) * a.chunk_idx_len ≤ f.size
    → f.size < 2 ^ 63
    → IsValid (fresh a f)
fresh-IsValid a f w le o s t =
    let entries : a.chunk_idx_len * a.chunk_size / a.max_kv_size ≤ a.chunk_idx_len =
      div-le_of_le-mul a.max_kv_size (omega (arith, mul-le-mul_left a.chunk_idx_len le)) in
    record {
      opened = o;
      chunk_pos = w.chunk_pos;
      kv_pos = omega (arith, w.chunk_pos);
      chunk_le_kv = le;
      meta_bytes = refl;
      start_fits = w.start_fits;
      start_small = w.start_small;
      allocated = omega arith;
      size_fits = t;
    }

fresh-IsStorable :
    (a : CreateArgs) (f : File)
    → FitsWords a
    → a.encode_type ≤ 3
    → a.chunk_size ≤ a.max_kv_size
    → f.is_open ≡ true
    → 4096 ≤ f.size
    → IsStorable (fresh a f)
fresh-IsStorable a f w known le o s = record {
  words = record {
    magic_word = omega arith;
    version_word = omega arith;
    start_word = omega (arith, w.start_small);
    len_word = omega (arith, w.len_small);
    encode_word = omega (arith, known);
    max_kv_word = omega (arith, w.kv_small);
    chunk_word = omega (arith, w.kv_small);
    meta_word = omega arith;
    miner_bytes = w.miner_bytes;
    status_word = omega arith;
  };
  known_type = known;
  holds_header = record { opened = o; within = omega arith; signed = omega arith };
}

check_args-le : (a : CreateArgs) {u : Unit {0}} → check_args a ≡ ok u → a.chunk_size ≤ a.max_kv_size
unfolding check_args
check_args-le a h = ground arith

created_file :
    (a : CreateArgs) (f : File) (df : DataFile)
    → FitsWords a
    → a.encode_type ≤ 3
    → a.chunk_size ≤ a.max_kv_size
    → f.is_open ≡ true
    → 4096 + (a.chunk_size + 32) * a.chunk_idx_len ≤ f.size
    → f.size < 2 ^ 63
    → (write_header (fresh a f)).1 ≡ df
    → IsValid df × (open_data_file (ok df.file) ≡ ok df)
created_file a f df w known le o s t e =
    let st = fresh-IsStorable a f w known le o (omega arith) in
    subst (λ d. IsValid d × (open_data_file (ok d.file) ≡ ok d)) e
      (
        subst IsValid (sym (ap (λ r. r.1) (write_header-ok st))) (
            IsValid-file (fresh a f)
              (record f { content = overlay f.content 0 (header_bytes (header_of (fresh a f))) })
              (fresh-IsValid a f w le o s t) refl refl),
        open-write_header st,
      )

allocated_size :
    (a : CreateArgs)
    → FitsWords a
    → a.chunk_size ≤ a.max_kv_size
    → (a.chunk_size +64 32) *64 a.chunk_idx_len ≡ (a.chunk_size + 32) * a.chunk_idx_len
allocated_size a w le =
    rw (u64_fits (a.chunk_size + 32) (omega (arith, w.kv_small)))
      (u64_fits ((a.chunk_size + 32) * a.chunk_idx_len) (omega (arith, w.len_fits)))

module _ {fallocate : File → ℕ → ℕ → Outcome File} (alloc : Allocates fallocate) where
  -- If the chunk size is above 0, no size or product of the arguments wraps, the miner has 20 bytes,
  -- the encode type is one of the four known ones, which Create does not check, the new file is open,
  -- and Fallocate allocates what it documents, then a successful `Create` gives a well-formed data
  -- file, and opening its file gives it again.
  pub create-IsValid :
      (a : CreateArgs) (f : File) (df : DataFile)
      → FitsWords a
      → a.encode_type ≤ 3
      → f.is_open ≡ true
      → create fallocate a (ok f) ≡ ok df
      → IsValid df × (open_data_file (ok df.file) ≡ ok df)
  unfolding create
  create-IsValid a f df w known o e =
      let (u, checked, e1) = >>=-eq-ok (check_args a) _ e in
      let (f', al, e2) =
        >>=-eq-ok (fallocate f ((a.chunk_size +64 32) *64 a.chunk_idx_len) header_size) _ e1 in
      created_file a f' df w known (check_args-le a checked) (alloc.stays_open f f' _ _ al ∙ o)
        (omega (arith, alloc.covers f f' _ _ al, allocated_size a w (check_args-le a checked)))
        (alloc.signed f f' _ _ al) (ground arith)
