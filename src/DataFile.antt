-- ===== src/DataFile.antt =====
-- ethstorage/data_file.go: a local file with a header, the encoded chunks of a range of chunk
-- indices, and one metadata record for each key-value entry of the range. `uint64` fields are
-- numbers below 2 ^ 64 and their arithmetic wraps. A division by a size of zero panics in Go and
-- is 0 here: the theorems are about files whose sizes are positive.
pub mod Valid
pub mod Chunks
pub mod Frame
pub mod Laws
pub mod Header
pub mod Creation
use es_node.Prelude.{
  ℕ, ◌+◌, ◌*◌, ◌/◌, ◌^◌, ◌&&◌, Bool, true, false, not, List, [], ◌∷◌, ◌++◌, Option, none, some,
  length, ltb, leb, if◌then◌else◌, ◌+64◌, ◌-64◌, ◌*64◌, ◌<<64◌,
}
use es_node.Outcome.{
  Error, Outcome, ok, err, panic, ◌>>=◌, ◌>>◌, refuse_if, Exec, chunk_not_found, read_too_large,
  write_data_too_large, sample_not_found, kv_not_found, write_meta_too_large,
}
use es_node.Disk
use es_node.Disk.{File, read_at, buffer_at, write_at}

-- Encode types.
abbrev pub no_encode : ℕ
no_encode = 0

abbrev pub encode_keccak_256 : ℕ
encode_keccak_256 = 1

abbrev pub encode_ethash : ℕ
encode_ethash = 2

abbrev pub encode_blob_poseidon : ℕ
encode_blob_poseidon = 3

abbrev pub encode_end : ℕ
encode_end = encode_blob_poseidon

abbrev pub header_size : ℕ
header_size = 4096

abbrev pub sample_size_bits : ℕ
sample_size_bits = 5

pub record DataFile : Type 0 where
  pub file : File
  pub chunk_idx_start : ℕ
  pub chunk_idx_len : ℕ
  pub encode_type : ℕ
  pub max_kv_size : ℕ
  pub chunk_size : ℕ
  pub meta_size : ℕ
  pub miner : List ℕ

unfoldable pub chunk_idx_end : DataFile → ℕ
chunk_idx_end df = df.chunk_idx_start +64 df.chunk_idx_len

unfoldable pub kv_idx_start : DataFile → ℕ
kv_idx_start df = (df.chunk_idx_start *64 df.chunk_size) / df.max_kv_size

unfoldable pub kv_idx_end : DataFile → ℕ
unfolding kv_idx_start
kv_idx_end df = kv_idx_start df +64 (df.chunk_idx_len *64 df.chunk_size) / df.max_kv_size

unfoldable pub contains : DataFile → ℕ → Bool
unfolding chunk_idx_end
contains df chunk_idx = leb df.chunk_idx_start chunk_idx && ltb chunk_idx (chunk_idx_end df)

unfoldable pub contains_kv : DataFile → ℕ → Bool
unfolding kv_idx_start kv_idx_end
contains_kv df kv_idx = leb (kv_idx_start df) kv_idx && ltb kv_idx (kv_idx_end df)

-- `<<` and `/` have one precedence in Go and group to the left.
unfoldable pub contains_sample : DataFile → ℕ → Bool
unfolding contains
contains_sample df sample_idx = contains df ((sample_idx <<64 sample_size_bits) / df.chunk_size)

-- n > int(w), for a length n and a `uint64` w: beyond 2 ^ 63 the conversion is negative.
abbrev pub exceeds : ℕ → ℕ → Bool
exceeds n w = if ltb w (2 ^ 63) then ltb w n else true

-- Where a chunk, the metadata of an entry, and a sample lie in the file.
abbrev pub chunk_offset : DataFile → ℕ → ℕ
chunk_offset df chunk_idx = header_size +64 ((chunk_idx -64 df.chunk_idx_start) *64 df.chunk_size)

abbrev pub meta_offset : DataFile → ℕ → ℕ
meta_offset df kv_idx =
    header_size
    +64 (df.chunk_idx_len *64 df.chunk_size)
    +64 ((kv_idx -64 kv_idx_start df) *64 df.meta_size)

abbrev pub sample_offset : DataFile → ℕ → ℕ
sample_offset df sample_idx =
    (header_size +64 (sample_idx <<64 sample_size_bits)) -64 (df.chunk_idx_start *64 df.chunk_size)

unfoldable pub read : DataFile → ℕ → ℕ → Outcome (List ℕ)
read df chunk_idx len =
    if not (contains df chunk_idx)
    then err chunk_not_found
    else if exceeds len df.chunk_size
    then err read_too_large
    else read_at df.file (chunk_offset df chunk_idx) len

unfoldable pub read_sample : DataFile → ℕ → Outcome (List ℕ)
read_sample df sample_idx =
    if not (contains_sample df sample_idx)
    then err sample_not_found
    else read_at df.file (sample_offset df sample_idx) (2 ^ sample_size_bits)

-- The write goes to the file of the receiver.
abbrev pub write_file : ℕ → List ℕ → Exec DataFile (Unit {0})
write_file off b df = let (r, f) = write_at off b df.file in (r, record df { file = f })

unfoldable pub write : ℕ → List ℕ → Exec DataFile (Unit {0})
write chunk_idx b df =
    if not (contains df chunk_idx)
    then (err chunk_not_found, df)
    else if exceeds (length b) df.chunk_size
    then (err write_data_too_large, df)
    else write_file (chunk_offset df chunk_idx) b df

-- ReadMeta returns two values: this is the bytes, or the error, for the callers that drop the bytes
-- beside an error.
unfoldable pub read_meta : DataFile → ℕ → Outcome (List ℕ)
read_meta df kv_idx =
    if not (contains_kv df kv_idx)
    then err kv_not_found
    else read_at df.file (meta_offset df kv_idx) df.meta_size

-- The first value of ReadMeta: nil, or the buffer, also beside an error of ReadAt.
unfoldable pub meta_buffer : DataFile → ℕ → Option (List ℕ)
meta_buffer df kv_idx =
    if not (contains_kv df kv_idx)
    then none
    else some (buffer_at df.file (meta_offset df kv_idx) df.meta_size)

unfoldable pub write_meta : ℕ → List ℕ → Exec DataFile (Unit {0})
write_meta kv_idx b df =
    if not (contains_kv df kv_idx)
    then (err kv_not_found, df)
    else if exceeds (length b) df.meta_size
    then (err write_meta_too_large, df)
    else write_file (meta_offset df kv_idx) b df

unfoldable pub close : Exec DataFile (Unit {0})
close df = let (r, f) = Disk.close df.file in (r, record df { file = f })
