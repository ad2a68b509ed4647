-- ===== src/Tests/Files.antt =====
-- Data files.
use es_node.Prelude.{
  ℕ, ◌+◌, ◌^◌, ◌<◌, ◌≤◌, ◌≡◌, refl, true, [], ◌∷◌, replicate, ltb, arith, if◌then◌else◌, ap, subst,
  Bool-cases, inl, inr,
}
use es_node.Outcome.{Outcome, ok, err, panic, file_too_large}
use es_node.Disk.{File}
use es_node.DataFile
use es_node.DataFile.{DataFile}
use es_node.DataFile.Valid.{IsValid}
use es_node.DataFile.Laws.{read-write_self, read-write_ne, write_meta-IsValid}
use es_node.DataFile.Header.{write_header, open_data_file}
use es_node.DataFile.Header.RoundTrip.{IsStorable, open-write_header}
use es_node.DataFile.Creation.{
  CreateArgs, create, check_args, fresh, FitsWords, Allocates, create-IsValid,
}
use es_node.Pow2.{is_pow2n}
use es_node.Tests.World.{disk_file, small_file, small_file-IsValid, some_commit}

read-write_self_example :
    DataFile.read (DataFile.write 2 (4 ∷ 5 ∷ []) small_file).1 2 2 ≡ ok (4 ∷ 5 ∷ [])
unfolding DataFile.contains
read-write_self_example = read-write_self small_file-IsValid 2 (4 ∷ 5 ∷ []) refl (omega arith)

read-write_ne_example :
    DataFile.read (DataFile.write 2 (4 ∷ 5 ∷ []) small_file).1 1 3 ≡ DataFile.read small_file 1 3
read-write_ne_example = read-write_ne small_file-IsValid 2 1 3 (4 ∷ 5 ∷ []) (omega arith)

write_meta-IsValid_example : IsValid (DataFile.write_meta 1 some_commit small_file).1
write_meta-IsValid_example = write_meta-IsValid small_file-IsValid 1 some_commit

small_file-IsStorable : IsStorable small_file
small_file-IsStorable = record {
  words = record {
    magic_word = omega arith;
    version_word = omega arith;
    start_word = omega arith;
    len_word = omega arith;
    encode_word = omega arith;
    max_kv_word = omega arith;
    chunk_word = omega arith;
    meta_word = omega arith;
    miner_bytes = refl;
    status_word = omega arith;
  };
  known_type = omega arith;
  holds_header = record { opened = refl; within = omega arith; signed = omega arith };
}

open-write_header_example :
    open_data_file (ok (write_header small_file).1.file) ≡ ok (write_header small_file).1
open-write_header_example = open-write_header small_file-IsStorable

-- Allocation that extends an open file up to the end of the range.
allocate_to : File → ℕ → Outcome File
allocate_to f end =
    if ltb f.size end
    then (if ltb end (2 ^ 63) then ok (record f { size = end }) else err file_too_large)
    else if ltb f.size (2 ^ 63)
    then ok f
    else err file_too_large

abbrev allocate : File → ℕ → ℕ → Outcome File
allocate f off len = allocate_to f (off + len)

ok-injective : {a b : File} → ok a ≡ ok b → a ≡ b
ok-injective h = ap file_or h
  where
    file_or : Outcome File → File
    file_or (ok a) = a
    file_or (err e) = disk_file
    file_or panic = disk_file

allocate_to-Allocates :
    (f f' : File) (end : ℕ)
    → allocate_to f end ≡ ok f'
    → (end ≤ f'.size) × (f'.is_open ≡ f.is_open) × (f'.size < 2 ^ 63)
unfolding allocate_to
allocate_to-Allocates f f' end h = elim (Bool-cases (ltb f.size end)) [
  | inl short ↦ elim (Bool-cases (ltb end (2 ^ 63))) [
    | inl fits ↦
        subst (λ (g : File). (end ≤ g.size) × (g.is_open ≡ f.is_open) × (g.size < 2 ^ 63))
          (ok-injective (rw (short, fits) at h)) (omega arith, refl, ground arith)
    | inr large ↦ absurd (ground (arith, rw (short, large) at h))
  ]
  | inr long ↦ elim (Bool-cases (ltb f.size (2 ^ 63))) [
    | inl fits ↦
        subst (λ (g : File). (end ≤ g.size) × (g.is_open ≡ f.is_open) × (g.size < 2 ^ 63))
          (ok-injective (rw (long, fits) at h)) (ground arith, refl, ground arith)
    | inr large ↦ absurd (ground (arith, rw (long, large) at h))
  ]
]

allocate-Allocates : Allocates allocate
allocate-Allocates = record {
  covers = λ f f' off len h. (allocate_to-Allocates f f' (off + len) h).0;
  stays_open = λ f f' off len h. (allocate_to-Allocates f f' (off + len) h).1;
  signed = λ f f' off len h. (allocate_to-Allocates f f' (off + len) h).2;
}

abbrev args : CreateArgs
args = record {
  chunk_idx_start = 0;
  chunk_idx_len = 4;
  max_kv_size = 128;
  encode_type = 3;
  miner = replicate 20 5;
  chunk_size = 64;
}

args-FitsWords : FitsWords args
args-FitsWords = record {
  chunk_pos = omega arith;
  start_fits = omega arith;
  start_small = omega arith;
  len_fits = omega arith;
  len_small = omega arith;
  kv_small = omega arith;
  miner_bytes = refl;
}

abbrev empty_file : File
empty_file = record { is_open = true; size = 0; content = λ p. 0 }

abbrev new_file : DataFile
new_file = (write_header (fresh args (record empty_file { size = 4480 }))).1

create-new_file : create allocate args (ok empty_file) ≡ ok new_file
unfolding create check_args is_pow2n allocate_to
create-new_file = refl

create-IsValid_example : IsValid new_file × (open_data_file (ok new_file.file) ≡ ok new_file)
create-IsValid_example =
    create-IsValid allocate-Allocates args empty_file new_file args-FitsWords (omega arith) refl
      create-new_file
