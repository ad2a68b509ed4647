-- ===== src/DataFile/Header/RoundTrip.antt =====
-- A header that was written is read back (ethstorage/data_file.go).
use mathlib.Core.List.{append_assoc}
use es_node.Prelude.{
  ℕ, ◌^◌, ◌≤◌, ◌<◌, ◌≡◌, sym, ap, subst, ◌∙◌, List, ◌++◌, length, length-append, take_append,
  drop_append, arith, slice, slice-append, overlay, slice-overlay_self,
}
use es_node.Outcome.{ok}
use es_node.BigEndian.{be_bytes, length-be_bytes, be_value-be_bytes}
use es_node.Disk.{read_at}
use es_node.Disk.Laws.{Holds, read_at-ok, write_at-ok}
use es_node.DataFile.{DataFile}
use es_node.DataFile.Header.{
  DataFileHeader, header_of, header_bytes, read_uint64, read_address, parse_header, check_header,
  load_header, write_header, read_header, open_data_file,
}

pub record IsWordHeader (h : DataFileHeader) : Type 0 where
  pub magic_word : h.magic < 2 ^ 64
  pub version_word : h.version < 2 ^ 64
  pub start_word : h.chunk_idx_start < 2 ^ 64
  pub len_word : h.chunk_idx_len < 2 ^ 64
  pub encode_word : h.encode_type < 2 ^ 64
  pub max_kv_word : h.max_kv_size < 2 ^ 64
  pub chunk_word : h.chunk_size < 2 ^ 64
  pub meta_word : h.meta_size < 2 ^ 64
  pub miner_bytes : length h.miner ≡ 20
  pub status_word : h.status < 2 ^ 64

read_uint64-be_bytes :
    (v : ℕ) (rest : List ℕ) → v < 2 ^ 64 → read_uint64 (be_bytes 8 v ++ rest) ≡ ok (v, rest)
unfolding read_uint64
read_uint64-be_bytes v rest h =
    rw
      (
        take_append 8 (be_bytes 8 v) rest (sym (length-be_bytes 8 v)),
        drop_append 8 (be_bytes 8 v) rest (sym (length-be_bytes 8 v)),
        be_value-be_bytes 8 v h,
      )
      (ground (arith, length-append (be_bytes 8 v) rest, length-be_bytes 8 v))

read_address-append :
    (m : List ℕ) (rest : List ℕ) → length m ≡ 20 → read_address (m ++ rest) ≡ ok (m, rest)
unfolding read_address
read_address-append m rest h =
    rw (take_append 20 m rest (sym h), drop_append 20 m rest (sym h))
      (ground (arith, length-append m rest))

-- What was printed is parsed, whatever follows.
parse-header_bytes :
    (h : DataFileHeader) (rest : List ℕ)
    → IsWordHeader h
    → parse_header (header_bytes h ++ rest) ≡ ok h
unfolding parse_header header_bytes
parse-header_bytes h rest w = simp (
  append_assoc,
  read_uint64-be_bytes h.magic _ w.magic_word,
  read_uint64-be_bytes h.version _ w.version_word,
  read_uint64-be_bytes h.chunk_idx_start _ w.start_word,
  read_uint64-be_bytes h.chunk_idx_len _ w.len_word,
  read_uint64-be_bytes h.encode_type _ w.encode_word,
  read_uint64-be_bytes h.max_kv_size _ w.max_kv_word,
  read_uint64-be_bytes h.chunk_size _ w.chunk_word,
  read_uint64-be_bytes h.meta_size _ w.meta_word,
  read_address-append h.miner _ w.miner_bytes,
  read_uint64-be_bytes h.status _ w.status_word,
)

length-header_bytes : (h : DataFileHeader) → length h.miner ≡ 20 → length (header_bytes h) ≡ 92
unfolding header_bytes
length-header_bytes h m = simp (length-append, length-be_bytes, m)

-- The fields of a data file fit the header, and its encode type is known.
pub record IsStorable (df : DataFile) : Type 0 where
  pub words : IsWordHeader (header_of df)
  pub known_type : df.encode_type ≤ 3
  pub holds_header : Holds df.file 0 4096

module _ {df : DataFile} (s : IsStorable df) where
  abbrev written : List ℕ
  written = header_bytes (header_of df)

  pub write_header-ok :
      write_header df
      ≡ (ok tt, record df { file = record df.file { content = overlay df.file.content 0 written } })
  unfolding write_header
  write_header-ok =
      ap (λ t. (t.0, record df { file = t.1 }))
        (write_at-ok df.file 0 written (record {
          opened = s.holds_header.opened;
          within = omega (
            arith,
            length-header_bytes (header_of df) s.words.miner_bytes,
            s.holds_header.within,
          );
          signed = omega (arith, length-header_bytes (header_of df) s.words.miner_bytes);
        }))

  header_read :
      read_at (record df.file { content = overlay df.file.content 0 written }) 0 4096
      ≡ ok (written ++ slice (overlay df.file.content 0 written) 92 4004)
  header_read =
      read_at-ok (record df.file { content = overlay df.file.content 0 written }) 0 4096
        (record {
          opened = s.holds_header.opened;
          within = s.holds_header.within;
          signed = omega arith;
        })
      ∙ ap ok (slice-append (overlay df.file.content 0 written) 0 92 4004)
      ∙ ap (λ t. ok (t ++ slice (overlay df.file.content 0 written) 92 4004)) whole
    where
      whole : slice (overlay df.file.content 0 written) 0 92 ≡ written
      whole =
          subst (λ n. slice (overlay df.file.content 0 written) 0 n ≡ written)
            (length-header_bytes (header_of df) s.words.miner_bytes)
            (slice-overlay_self df.file.content 0 written)

  check-header_of : check_header (header_of df) ≡ ok tt
  unfolding check_header
  check-header_of = ground (arith, s.known_type)

  pub load-write_header : load_header (write_header df).1.file ≡ ok (header_of df)
  unfolding load_header
  load-write_header = rw (
    write_header-ok,
    header_read,
    parse-header_bytes (header_of df) (slice (overlay df.file.content 0 written) 92 4004) s.words,
    check-header_of,
  )

  -- If the fields of a data file fit the header, its encode type is known and its file holds the
  -- header, opening the file after its header was written gives the data file that was written.
  pub open-write_header : open_data_file (ok (write_header df).1.file) ≡ ok (write_header df).1
  unfolding open_data_file read_header
  open-write_header = rw load-write_header (rw write_header-ok)
