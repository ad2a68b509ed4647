-- ===== src/Tests/Scans.antt =====
-- Metadata downloads and scans of small storages.
use es_node.Prelude.{
  ℕ, zero, suc, ◌+◌, ◌-◌, ◌*◌, ◌≤◌, ◌<◌, ◌≡◌, ◌≢◌, ◌↔◌, refl, ap, false, List, [], ◌∷◌, none, some,
  replicate, bytes_equal, get_elem?, min, arith,
}
use es_node.Outcome.{Error, Outcome, ok, err, panic, scan_not_found, commit_mismatch}
use es_node.Manager.{Map, lookup, insert}
use es_node.Manager.Access.{try_read, try_read_meta, try_meta_buffer}
use es_node.Storage.{StorageManager, L1Source}
use es_node.Storage.MetaDownload.{
  Env, indices_from, download_meta_in_range, download_meta_in_parallel, download_ranges,
}
use es_node.Storage.MetaLoop.{
  metas_from, Known, Calm, download_meta_in_range-Known, download_meta_in_range-none,
}
use es_node.Storage.MetaRanges.{download_ranges-Tiles, download_ranges-Known}
use es_node.Sync.Tiles.{Tiles}
use es_node.Scanner.{get_kvs_in_batch, summary_local_kvs}
use es_node.Scanner.Batches.{segment, wrapped, kv_at, get_kvs_in_batch-segment}
use es_node.Scanner.Rounds.{Reached, every_entry-Reached}
use es_node.Scanner.Local.{IsLocal, summary_local_kvs-Listed}
use es_node.Scanner.Repair.{
  check_meta, Scanned, Status, update_stats, check_kv, scan_kv, scan_metas, meta_commit, fix_kv,
}
use es_node.Scanner.Stats.{Recorded, scan_metas-Recorded}
use es_node.Scanner.Settled.{Settled, fix_kv-Settled}
use es_node.Tests.Managers.{broken_storage}
use es_node.Shard
use es_node.DataFile
use es_node.Disk.{buffer_at, read_at}
use es_node.Commit.{compare_commits}
use es_node.Tests.World.{world, some_commit}
use es_node.Tests.Metas.{three_entries}

abbrev contract_metas : ℕ → List ℕ
contract_metas i = i ∷ []

abbrev answer : List ℕ → List (List ℕ)
answer [] = []
answer (i ∷ is) = contract_metas i ∷ answer is

abbrev calm_env : Env
calm_env = record {
  ask = λ round attempt is l. ok (answer is);
  between = λ round s. s;
  cancelled = λ round. false;
}

answer-metas_from : (n i : ℕ) → answer (indices_from n i) ≡ metas_from contract_metas n i
unfolding indices_from metas_from
answer-metas_from zero i = refl
answer-metas_from (suc n) i = ap (λ l. contract_metas i ∷ l) (answer-metas_from n (i + 1))

calm_env-Calm : Calm contract_metas calm_env
calm_env-Calm = record {
  truthful = λ round attempt n i l. ap ok (answer-metas_from n i);
  same_l1 = λ round s. refl;
  same_count = λ round s. refl;
  kept = λ round s j h. h;
  running = λ round. refl;
}

download_meta_in_range-Known_example :
    (s' : StorageManager) × (download_meta_in_range calm_env 2 3 4 0 0 three_entries
      ≡ some (ok tt, s'))
    × (s'.kv_entry_count ≡ 3)
    × Known contract_metas 0 3 s'.blob_metas
download_meta_in_range-Known_example =
    download_meta_in_range-Known contract_metas calm_env calm_env-Calm 2 3 0 4 0 0 three_entries
      (omega arith) (omega arith) (omega arith) (omega arith) (omega arith)
      (λ j a b. absurd (omega arith))

download_meta_in_range-none_example :
    download_meta_in_range calm_env 2 4 1000 0 1 three_entries ≡ none
download_meta_in_range-none_example =
    download_meta_in_range-none contract_metas calm_env calm_env-Calm 2 4 1000 0 1 three_entries
      (omega arith) (omega arith)

download_ranges-Tiles_example :
    (2 - 1 < 32 * 1 → Tiles 1 2 (download_ranges 1 1 2))
    × (32 * 1 ≤ 2 - 1 → Tiles 0 2 (download_ranges 1 1 2))
download_ranges-Tiles_example =
    download_ranges-Tiles 1 1 2 (omega arith) (omega arith) (omega arith) (omega arith)

download_ranges-Known_example :
    (s' : StorageManager) × (download_meta_in_parallel
        (λ i. calm_env)
        1
        (3 + 1)
        0
        (download_ranges 1 1 3)
        three_entries
      ≡ some (ok tt, s'))
    × Known contract_metas 1 3 s'.blob_metas
download_ranges-Known_example =
    download_ranges-Known contract_metas (λ i. calm_env) (λ i. calm_env-Calm) 1 1 3 three_entries
      (omega arith) (omega arith) (omega arith) (omega arith) (omega arith)

-- Shards 0 and 2 of four entries, of which the contract has ten.
abbrev shards : List ℕ
shards = 0 ∷ 2 ∷ []

get_kvs_in_batch-segment_example :
    get_kvs_in_batch shards 4 6 3 2
    ≡ ok (
      segment shards 4 (wrapped 6 2) (min (wrapped 6 2 + 3) 6 - wrapped 6 2),
      min (wrapped 6 2 + 3) 6,
    )
get_kvs_in_batch-segment_example =
    get_kvs_in_batch-segment shards 4 6 3 2 (omega arith) (omega arith) (omega arith) (omega arith)
      (omega arith)

segment-shards : segment shards 4 2 3 ≡ 2 ∷ 3 ∷ 8 ∷ []
unfolding segment
segment-shards = refl

every_entry-Reached_example : Reached shards 4 6 3 (2 * 6 + 2) 3 1
every_entry-Reached_example =
    every_entry-Reached shards 4 6 3 (omega arith) (omega arith) (omega arith) (omega arith) 1
      (omega arith) 3 (omega arith)

summary_local_kvs-Listed_example :
    (n : ℕ) × (summary_local_kvs 4 9 shards 0 ≡ ok n)
    × (n ≤ 2 * 4)
    × ((kv : ℕ) → IsLocal 4 9 shards kv ↔ ((j : ℕ) × (j < n) × (kv_at shards 4 j ≡ kv)))
summary_local_kvs-Listed_example =
    summary_local_kvs-Listed 4 9 (omega arith) (omega arith) 0 shards
      (omega arith, (omega arith, tt)) (omega arith)

-- Without a shard no metadata is found.
abbrev recorded : Map Scanned
recorded =
    (0, record { status = Status.unreadable; timestamp = 0; error = some scan_not_found }) ∷ []

scanned :
    scan_metas world 9 check_meta three_entries (λ i. false) 0 (0 ∷ []) (replicate 32 3 ∷ []) []
    ≡ (ok tt, recorded)
unfolding scan_metas scan_kv check_kv try_read_meta try_meta_buffer lookup update_stats insert
    meta_commit
scanned = refl

scan_metas-Recorded_example :
    ((j : ℕ)
      → Recorded j []
      → Recorded j
          (scan_metas world 9 check_meta three_entries
            (λ i. false)
            0
            (0 ∷ [])
            (replicate 32 3 ∷ [])
            []).1)
    × ((scan_metas world 9 check_meta three_entries
            (λ i. false)
            0
            (0 ∷ [])
            (replicate 32 3 ∷ [])
            []).0
          ≢ panic
        → (n kv : ℕ) (meta : List ℕ) (f : Error) → ((k : ℕ) → k ≤ n → false ≡ false)
        → get_elem? (0 ∷ []) n ≡ some kv
        → get_elem? (replicate 32 3 ∷ []) n ≡ some meta
        → check_kv world check_meta three_entries kv (meta_commit meta) ≡ err f
        → Recorded kv
            (scan_metas world 9 check_meta three_entries
              (λ i. false)
              0
              (0 ∷ [])
              (replicate 32 3 ∷ [])
              []).1)
scan_metas-Recorded_example =
    scan_metas-Recorded world 9 check_meta three_entries (λ i. false) (0 ∷ []) (replicate 32 3 ∷ [])
      []

-- The file of the entry is closed: the zeros of the buffer beside the error are compared.
compared_zeros : check_kv world check_meta broken_storage 0 (replicate 32 3) ≡ err commit_mismatch
unfolding check_kv try_meta_buffer lookup Shard.meta_buffer DataFile.contains_kv
    DataFile.meta_buffer buffer_at read_at compare_commits bytes_equal
compared_zeros = refl

abbrev silent_l1 : L1Source
silent_l1 = record { get_kv_metas = λ is l. ok []; get_storage_kv_entry_count = λ l. ok 3 }

abbrev fetch : ℕ → List ℕ → Outcome (List ℕ)
fetch kv commit = ok (kv ∷ [])

not_fixed : (fix_kv world silent_l1 fetch 0 some_commit three_entries recorded).0 ≡ ok recorded
unfolding fix_kv check_kv try_read lookup update_stats insert
not_fixed = refl

fix_kv-Settled_example : Settled world silent_l1 fetch 0 some_commit three_entries recorded recorded
unfolding lookup
fix_kv-Settled_example =
    fix_kv-Settled world silent_l1 fetch 0 some_commit three_entries recorded recorded (refl, tt)
      not_fixed
