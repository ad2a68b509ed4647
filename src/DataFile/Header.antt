-- ===== src/DataFile/Header.antt =====
-- ethstorage/data_file.go, writeHeader, readHeader and OpenDataFile: the first 4096 bytes.
pub mod RoundTrip
use es_node.Prelude.{
  ℕ, ◌+◌, ◌-◌, ◌^◌, ◌≤◌, ◌<◌, ◌≡◌, refl, sym, ap, subst, ◌∙◌, Bool, true, false, List, [], ◌∷◌,
  ◌++◌, length, length-append, take, drop, take_append, drop_append, ltb, leb, ◌==◌, ==_refl, not,
  if◌then◌else◌, arith, slice, slice-append, overlay, slice-overlay_self, Bool-cases,
}
use mathlib.Core.List.{append_assoc, append-nil}
use es_node.Outcome.{
  Outcome, ok, err, panic, ◌>>=◌, ◌>>◌, refuse_if, Exec, end_of_file, magic_error,
  unsupported_version, unknown_mask_type,
}
use es_node.BigEndian.{be_bytes, be_value, length-be_bytes, be_value-be_bytes}
use es_node.Disk.{File, read_at, write_at}
use es_node.Disk.Laws.{Holds, read_at-ok, write_at-ok}
use es_node.DataFile.{DataFile, write_file, header_size, encode_end, encode_blob_poseidon}

abbrev pub magic_number : ℕ
magic_number = 0xcf20bd770c22b2e1

abbrev pub version_number : ℕ
version_number = 1

pub record DataFileHeader : Type 0 where
  pub magic : ℕ
  pub version : ℕ
  pub chunk_idx_start : ℕ
  pub chunk_idx_len : ℕ
  pub encode_type : ℕ
  pub max_kv_size : ℕ
  pub chunk_size : ℕ
  pub meta_size : ℕ
  pub miner : List ℕ
  pub status : ℕ

abbrev pub header_of : DataFile → DataFileHeader
header_of df = record {
  magic = magic_number;
  version = version_number;
  chunk_idx_start = df.chunk_idx_start;
  chunk_idx_len = df.chunk_idx_len;
  encode_type = df.encode_type;
  max_kv_size = df.max_kv_size;
  chunk_size = df.chunk_size;
  meta_size = df.meta_size;
  miner = df.miner;
  status = 0;
}

-- The buffer that `writeHeader` fills; writes to a `bytes.Buffer` do not fail.
unfoldable pub header_bytes : DataFileHeader → List ℕ
header_bytes h =
    be_bytes 8 h.magic
    ++ (be_bytes 8 h.version
        ++ (be_bytes 8 h.chunk_idx_start
            ++ (be_bytes 8 h.chunk_idx_len
                ++ (be_bytes 8 h.encode_type
                    ++ (be_bytes 8 h.max_kv_size
                        ++ (be_bytes 8 h.chunk_size
                            ++ (be_bytes 8 h.meta_size ++ (h.miner ++ be_bytes 8 h.status))))))))

unfoldable pub write_header : Exec DataFile (Unit {0})
write_header df = write_file 0 (header_bytes (header_of df)) df

-- `binary.Read` of a `uint64`, and `Read` of an address: a value and the rest of the buffer.
unfoldable pub read_uint64 : List ℕ → Outcome (ℕ × List ℕ)
read_uint64 b = if ltb (length b) 8 then err end_of_file else ok (be_value (take 8 b), drop 8 b)

unfoldable pub read_address : List ℕ → Outcome (List ℕ × List ℕ)
read_address b = if ltb (length b) 20 then err end_of_file else ok (take 20 b, drop 20 b)

unfoldable pub parse_header : List ℕ → Outcome DataFileHeader
parse_header b = do
  (magic, b) ← read_uint64 b
  (version, b) ← read_uint64 b
  (start, b) ← read_uint64 b
  (len, b) ← read_uint64 b
  (encode_type, b) ← read_uint64 b
  (max_kv_size, b) ← read_uint64 b
  (chunk_size, b) ← read_uint64 b
  (meta_size, b) ← read_uint64 b
  (miner, b) ← read_address b
  (status, b) ← read_uint64 b
  ok (record {
    magic = magic;
    version = version;
    chunk_idx_start = start;
    chunk_idx_len = len;
    encode_type = encode_type;
    max_kv_size = max_kv_size;
    chunk_size = chunk_size;
    meta_size = meta_size;
    miner = miner;
    status = status;
  })

-- The sanity checks on a header.
unfoldable pub check_header : DataFileHeader → Outcome (Unit {0})
check_header h = do
  refuse_if (not (h.magic == magic_number)) magic_error
  refuse_if (ltb version_number h.version) unsupported_version
  refuse_if (ltb encode_end h.encode_type) unknown_mask_type

abbrev pub with_header : DataFile → DataFileHeader → DataFile
with_header df h = record df {
  chunk_idx_start = h.chunk_idx_start;
  chunk_idx_len = h.chunk_idx_len;
  encode_type = h.encode_type;
  max_kv_size = h.max_kv_size;
  chunk_size = h.chunk_size;
  meta_size = h.meta_size;
  miner = h.miner;
}

-- Beside an error the fields stay as they were.
abbrev set_header : Outcome DataFileHeader → Exec DataFile (Unit {0})
set_header (ok h) df = (ok tt, with_header df h)
set_header (err e) df = (err e, df)
set_header panic df = (panic, df)

unfoldable pub load_header : File → Outcome DataFileHeader
load_header f = do b ← read_at f 0 header_size; h ← parse_header b; check_header h; ok h

unfoldable pub read_header : Exec DataFile (Unit {0})
read_header df = set_header (load_header df.file) df

abbrev pub blank : File → DataFile
blank f = record {
  file = f;
  chunk_idx_start = 0;
  chunk_idx_len = 0;
  encode_type = 0;
  max_kv_size = 0;
  chunk_size = 0;
  meta_size = 0;
  miner = [];
}

-- `os.OpenFile` is the argument.
unfoldable pub open_data_file : Outcome File → Outcome DataFile
open_data_file opened = do f ← opened; let (r, df) = read_header (blank f); r; ok df
