-- ===== src/Shard.antt =====
-- ethstorage/data_shard.go: a logical shard over several data files. A data file is owned by one
-- shard, so the shard holds the files by value; an operation that writes returns the shard that
-- it leaves, beside an error too.
pub mod Access
pub mod Files
pub mod Values
pub mod RoundTrip
pub mod Complete
pub mod Agreement
pub mod Closing
use es_node.Prelude.{
  ℕ, zero, suc, ◌+◌, ◌-◌, ◌*◌, ◌/◌, ◌%◌, ◌^◌, min, ◌&&◌, Bool, true, false, not, List, [], ◌∷◌,
  ◌++◌, Option, none, some, length, take, drop, pad_to, replicate, ltb, leb, ◌==◌, bytes_equal,
  if◌then◌else◌, ◌+64◌, ◌-64◌, ◌*64◌, ◌<<64◌,
}
use es_node.Outcome.{
  Error, Outcome, ok, err, panic, ◌>>=◌, ◌>>◌, refuse_if, Exec, then_do, mismatched_miner,
  mismatched_encode_type, mismatched_max_kv_size, chunk_idx_out_of_range, read_len_too_large,
  kv_not_found, write_data_too_large, shard_not_complete,
}
use es_node.Externals.{Externals}
use es_node.DataFile
use es_node.DataFile.{DataFile, exceeds, chunk_idx_end, no_encode}
use es_node.ChunkCode.{calc_encode_key, encode_chunk, decode_chunk}
use es_node.Commit.{check_commit}

pub record DataShard : Type 0 where
  pub shard_idx : ℕ
  pub kv_size : ℕ
  pub chunks_per_kv : ℕ
  pub kv_entries : ℕ
  pub data_files : List DataFile
  pub chunk_size : ℕ

-- NewDataShard panics on a size that is no multiple, and on a division by zero.
unfoldable pub new_data_shard : ℕ → ℕ → ℕ → ℕ → Outcome DataShard
new_data_shard shard_idx kv_size kv_entries chunk_size =
    if chunk_size == 0
    then panic
    else if not (kv_size % chunk_size == 0)
    then panic
    else ok (record {
      shard_idx = shard_idx;
      kv_size = kv_size;
      chunks_per_kv = kv_size / chunk_size;
      kv_entries = kv_entries;
      data_files = [];
      chunk_size = chunk_size;
    })

unfoldable pub check_first : List DataFile → DataFile → Outcome (Unit {0})
check_first [] df = ok tt
check_first (first ∷ _) df = do
  refuse_if (not (bytes_equal first.miner df.miner)) mismatched_miner
  refuse_if (not (first.encode_type == df.encode_type)) mismatched_encode_type
  refuse_if (not (first.max_kv_size == df.max_kv_size)) mismatched_max_kv_size

unfoldable pub add_data_file : DataFile → Exec DataShard (Unit {0})
unfolding check_first
add_data_file df ds =
    then_do (check_first ds.data_files df, ds)
      (λ _ s. (ok tt, record s { data_files = s.data_files ++ df ∷ [] }))

unfoldable pub start_chunk_idx : DataShard → ℕ
start_chunk_idx ds = ds.shard_idx *64 ds.chunks_per_kv *64 ds.kv_entries

unfoldable pub end_chunk_idx : DataShard → ℕ
end_chunk_idx ds = (ds.shard_idx +64 1) *64 ds.chunks_per_kv *64 ds.kv_entries

unfoldable pub get_storage_file : List DataFile → ℕ → Option DataFile
get_storage_file [] chunk_idx = none
get_storage_file (df ∷ dfs) chunk_idx =
    if DataFile.contains df chunk_idx then some df else get_storage_file dfs chunk_idx

-- The inner loop of IsComplete: the chunk index moves past each file that holds it.
unfoldable pub pass_files : List DataFile → ℕ → Bool → ℕ × Bool
pass_files [] chunk_idx found = (chunk_idx, found)
pass_files (df ∷ dfs) chunk_idx found =
    let held = DataFile.contains df chunk_idx in
    pass_files dfs (if held then chunk_idx_end df else chunk_idx) (if held then true else found)

-- `none` means that the fuel ran out.
unfoldable pub complete_from : ℕ → List DataFile → ℕ → ℕ → Option Bool
complete_from zero dfs limit chunk_idx = none
complete_from (suc fuel) dfs limit chunk_idx =
    let (next, found) = pass_files dfs chunk_idx false in
    let rest = complete_from fuel dfs limit next in
    if ltb chunk_idx limit then (if found then rest else some false) else some true

-- Each round passes at least one chunk index.
unfoldable pub is_complete : DataShard → Option Bool
is_complete ds =
    complete_from (suc (end_chunk_idx ds - start_chunk_idx ds)) ds.data_files (end_chunk_idx ds)
      (start_chunk_idx ds)

-- The zero address of a shard with no file.
unfoldable pub miner : DataShard → List ℕ
miner ds = elim ds.data_files [ [] ↦ replicate 20 0 | df ∷ _ ↦ df.miner ]

unfoldable pub encode_type : DataShard → ℕ
encode_type ds = elim ds.data_files [ [] ↦ no_encode | df ∷ _ ↦ df.encode_type ]

unfoldable pub contains : DataShard → ℕ → Bool
contains ds kv_idx =
    leb (ds.shard_idx *64 ds.kv_entries) kv_idx
    && ltb kv_idx ((ds.shard_idx +64 1) *64 ds.kv_entries)

unfoldable pub contains_sample : DataShard → ℕ → Bool
contains_sample ds sample_idx = contains ds ((sample_idx *64 32) / ds.kv_size)

-- The loops over the files stop at the first one that holds the chunk, the entry or the sample.
unfoldable pub read_chunk : List DataFile → ℕ → ℕ → Outcome (List ℕ)
read_chunk [] chunk_idx len = err shard_not_complete
read_chunk (df ∷ dfs) chunk_idx len =
    if DataFile.contains df chunk_idx
    then DataFile.read df chunk_idx len
    else read_chunk dfs chunk_idx len

unfoldable pub write_chunk : ℕ → List ℕ → Exec (List DataFile) (Unit {0})
write_chunk chunk_idx b [] = (err shard_not_complete, [])
write_chunk chunk_idx b (df ∷ dfs) =
    let (r, df') = DataFile.write chunk_idx b df in
    let (r', dfs') = write_chunk chunk_idx b dfs in
    if DataFile.contains df chunk_idx then (r, df' ∷ dfs) else (r', df ∷ dfs')

unfoldable pub read_meta : List DataFile → ℕ → Outcome (List ℕ)
read_meta [] kv_idx = err shard_not_complete
read_meta (df ∷ dfs) kv_idx =
    if DataFile.contains_kv df kv_idx then DataFile.read_meta df kv_idx else read_meta dfs kv_idx

-- The first value of ReadMeta.
unfoldable pub meta_buffer : List DataFile → ℕ → Option (List ℕ)
meta_buffer [] kv_idx = none
meta_buffer (df ∷ dfs) kv_idx =
    if DataFile.contains_kv df kv_idx
    then DataFile.meta_buffer df kv_idx
    else meta_buffer dfs kv_idx

unfoldable pub write_meta : ℕ → List ℕ → Exec (List DataFile) (Unit {0})
write_meta kv_idx b [] = (err shard_not_complete, [])
write_meta kv_idx b (df ∷ dfs) =
    let (r, df') = DataFile.write_meta kv_idx b df in
    let (r', dfs') = write_meta kv_idx b dfs in
    if DataFile.contains_kv df kv_idx then (r, df' ∷ dfs) else (r', df ∷ dfs')

unfoldable pub read_sample : List DataFile → ℕ → Outcome (List ℕ)
read_sample [] sample_idx = err shard_not_complete
read_sample (df ∷ dfs) sample_idx =
    if DataFile.contains_sample df sample_idx
    then DataFile.read_sample df sample_idx
    else read_sample dfs sample_idx

-- The files are closed one by one, up to the first error.
unfoldable pub close : Exec (List DataFile) (Unit {0})
close [] = (ok tt, [])
close (df ∷ dfs) =
    let (r, dfs') = close dfs in
    let (c, df') = DataFile.close df in
    elim c [ ok _ ↦ (r, df' ∷ dfs') | err e ↦ (err e, df' ∷ dfs) | panic ↦ (panic, df' ∷ dfs) ]
