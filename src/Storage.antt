-- ===== src/Storage.antt =====
-- ethstorage/storage_manager.go: the shards with a view of the last finalized L1 block. The mutex
-- makes the methods atomic. The L1 contract is reached through an `L1Source`, a parameter.
pub mod Commits
pub mod Download
pub mod Checked
pub mod Split
pub mod Metas
pub mod Reads
pub mod MetaDownload
pub mod MetaLoop
pub mod MetaRanges
pub mod Blobs
use es_node.Prelude.{
  ℕ, zero, suc, ◌+◌, ◌-◌, ◌*◌, ◌/◌, ◌%◌, ◌^◌, Bool, true, false, not, ◌&&◌, ◌||◌, List, [], ◌∷◌,
  ◌++◌, Option, none, some, length, take, drop, pad_to, get_or, replicate, ltb, leb, ◌==◌,
  if◌then◌else◌, bit_and, bytes_equal,
}
use es_node.Prelude.Int.{ℤ, pos, negsuc, int64, leb_ℤ}
use es_node.Outcome.{
  Error, Outcome, ok, err, panic, ◌>>=◌, ◌>>◌, refuse_if, Exec, then_do, meta_not_found,
  meta_read_failed, kv_idx_not_matched, blob_write_failed, syncing_or_empty,
}
use es_node.BigEndian.{be_bytes, be_value}
use es_node.Commit.{compare_commits, prepare_commit, blob_filling_mask}
use es_node.ChunkCode.{hash_size_in_contract}
use es_node.Manager.{ShardManager, Map, lookup, insert}
use es_node.Manager.Access.{try_read_meta, try_write_encoded}
use es_node.Manager.Access

-- Il1Source: batched metadata, and the number of entries, at a block.
pub record L1Source : Type 0 where
  pub get_kv_metas : List ℕ → ℤ → Outcome (List (List ℕ))
  pub get_storage_kv_entry_count : ℤ → Outcome ℕ

pub record StorageManager : Type 0 where
  pub download_thread_num : ℕ
  pub shard_manager : ShardManager
  pub local_l1 : ℤ
  pub kv_entry_count : ℕ
  pub blob_metas : Map (List ℕ)

unfoldable pub new_storage_manager : ShardManager → StorageManager
new_storage_manager sm = record {
  download_thread_num = 0;
  shard_manager = sm;
  local_l1 = pos 0;
  kv_entry_count = 0;
  blob_metas = [];
}

-- Without an answer of the contract nothing changes.
unfoldable pub reset : L1Source → ℤ → Exec StorageManager (Unit {0})
reset l1 new_l1 s =
    then_do (l1.get_storage_kv_entry_count new_l1, s)
      (λ count t. (ok tt, record t { kv_entry_count = count; local_l1 = new_l1 }))

abbrev magnitude : ℤ → ℕ
magnitude (pos n) = n
magnitude (negsuc n) = suc n

-- new(big.Int).SetInt64(int64(idx)).FillBytes(meta[0:5]): a panic if five bytes are too few.
unfoldable pub index_bytes : ℕ → Outcome (List ℕ)
index_bytes idx =
    if ltb (magnitude (int64 idx)) (256 ^ 5) then ok (be_bytes 5 (magnitude (int64 idx))) else panic

-- The metadata as the contract has it: 5 bytes of index, 3 of size, 24 of the commit.
unfoldable pub contract_meta : ℕ → List ℕ → Outcome (List ℕ)
contract_meta idx commit = do
  index ← index_bytes idx
  ok (index ++ (replicate 3 0 ++ pad_to hash_size_in_contract commit))

-- getKvMetas: the known metadata, and an empty one past the last entry.
unfoldable pub local_kv_metas : StorageManager → List ℕ → Outcome (List (List ℕ))
local_kv_metas s [] = ok []
local_kv_metas s (i ∷ is) =
    let rest = local_kv_metas s is in
    elim (lookup i s.blob_metas) [
      | some meta ↦ rest >>= λ metas. ok (meta ∷ metas)
      | none ↦
          if leb s.kv_entry_count i
          then (do meta ← contract_meta i []; metas ← rest; ok (meta ∷ metas))
          else err meta_not_found
    ]

-- delete(m, k)
unfoldable pub remove : {A : Type 0} → ℕ → Map A → Map A
remove k [] = []
remove k ((j, v) ∷ m) = if j == k then m else (j, v) ∷ remove k m

-- delete(m, i) for the n keys from i on
unfoldable pub remove_range : {A : Type 0} → ℕ → ℕ → Map A → Map A
remove_range i zero m = m
remove_range i (suc n) m = remove_range (i + 1) n (remove i m)

unfoldable pub set_metas : List ℕ → List (List ℕ) → Map (List ℕ) → Outcome (Map (List ℕ))
set_metas [] commits m = ok m
set_metas (idx ∷ is) [] m = panic
set_metas (idx ∷ is) (c ∷ commits) m = do
  meta ← contract_meta idx c
  set_metas is commits (insert idx meta m)

-- The keys from kvEntryCount up to the size of the map are dropped.
unfoldable pub update_local_metas : List ℕ → List (List ℕ) → Exec StorageManager (Unit {0})
update_local_metas kv_indices commits s =
    then_do (set_metas kv_indices commits s.blob_metas, s)
      λ m t. (
        ok tt,
        record t { blob_metas = remove_range t.kv_entry_count (length m - t.kv_entry_count) m },
      )

abbrev is_filled : List ℕ → Bool
is_filled meta = not (bit_and (get_or meta hash_size_in_contract 0) blob_filling_mask == 0)

-- `!success || err != nil` gives the same error for data of another node and for a failure.
abbrev or_error : {A : Type 0} → Error → Outcome (Option A) → Outcome A
or_error e (ok none) = err e
or_error e (ok (some a)) = ok a
or_error e (err _) = err e
or_error e panic = panic

abbrev flag_or_error : Error → Outcome Bool → Outcome (Unit {0})
flag_or_error e (ok true) = ok tt
flag_or_error e (ok false) = err e
flag_or_error e (err _) = err e
flag_or_error e panic = panic

-- The guards of commitEncodedBlob: whether the blob is to be written.
unfoldable pub commit_wanted : ShardManager → ℕ → List ℕ → List ℕ → Outcome Bool
commit_wanted sm kv_index commit contract = do
  compare_commits (take hash_size_in_contract (drop 8 contract)) commit
  m ← or_error meta_read_failed (try_read_meta sm kv_index)
  refuse_if (not (be_value (take 5 contract) == kv_index)) kv_idx_not_matched
  let local = pad_to 32 m
  ok (
      not (
        bytes_equal (take hash_size_in_contract local) (take hash_size_in_contract commit)
        && is_filled local))

unfoldable pub commit_encoded_blob : ℕ → List ℕ → List ℕ → List ℕ → Exec ShardManager (Unit {0})
commit_encoded_blob kv_index encoded commit contract sm =
    then_do (commit_wanted sm kv_index commit contract, sm)
      λ wanted sm'.
        if wanted
        then (let (r, sm'') = try_write_encoded kv_index encoded (prepare_commit commit) sm' in
            (flag_or_error blob_write_failed r, sm''))
        else (ok tt, sm')

-- Neither an entry that was never filled nor one that is filled with the empty blob is served.
unfoldable pub sync_check : ShardManager → ℕ → Outcome (Unit {0})
sync_check sm kv_idx = do
  m ← or_error meta_read_failed (try_read_meta sm kv_idx)
  let hash = pad_to 32 m
  refuse_if (bytes_equal hash (replicate 32 0)) syncing_or_empty
  refuse_if (bytes_equal hash (prepare_commit (replicate 32 0))) syncing_or_empty

unfoldable pub try_read_encoded : StorageManager → ℕ → ℕ → Outcome (Option (List ℕ))
try_read_encoded s kv_idx read_len = do
  sync_check s.shard_manager kv_idx
  Access.try_read_encoded s.shard_manager kv_idx read_len
