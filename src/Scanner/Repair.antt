-- ===== src/Scanner/Repair.antt =====
-- ethstorage/scanner/worker.go, scanner.go and utils.go: what scans and repairs record of an entry,
-- and which entries are repaired.
use es_node.Prelude.{
  ℕ, ◌+◌, ◌-◌, ◌*◌, Bool, true, false, ◌&&◌, ◌||◌, List, [], ◌∷◌, Option, none, some, take, drop,
  pad_to, ltb, if◌then◌else◌,
}
use es_node.Outcome.{
  Error, Outcome, ok, err, panic, ◌>>=◌, commit_mismatch, commit_length, scan_meta_failed,
  scan_not_found, scan_canceled,
}
use es_node.Externals.{Externals}
use es_node.ChunkCode.{hash_size_in_contract}
use es_node.Commit.{compare_commits}
use es_node.Manager.{Map, insert, lookup, insert_sorted}
use es_node.Manager.Access.{try_read, try_read_meta, try_meta_buffer}
use es_node.Storage.{StorageManager, L1Source, remove}
use es_node.Storage.Commits.{try_write_with_meta_check}

pub data ScanMode : Type 0 where
  check_meta check_blob check_block : ScanMode

-- The statuses fixed and recovered are never stored: such an entry is deleted.
pub data Status : Type 0 where
  unreadable pending failed : Status

-- The times are nanoseconds.
pub record Scanned : Type 0 where
  pub status : Status
  pub timestamp : ℕ
  pub error : Option Error

abbrev pub is_pending : Status → Bool
is_pending pending = true
is_pending _ = false

abbrev pub is_failed : Status → Bool
is_failed failed = true
is_failed _ = false

abbrev pub was_failed : Option Scanned → Bool
was_failed none = false
was_failed (some sc) = is_failed sc.status

-- Scanner.updateStats: a failed entry stays failed until it is fixed.
unfoldable pub update_stats : ℕ → Option Scanned → Map Scanned → Map Scanned
update_stats kv none stats = remove kv stats
update_stats kv (some sc) stats =
    if is_pending sc.status && was_failed (lookup kv stats) then stats else insert kv sc stats

abbrev has_error : Option Error → Bool
has_error none = false
has_error (some e) = true

-- The condition of needFix at the time `now`: three minutes for the downloader first.
unfoldable pub to_fix : ℕ → Scanned → Bool
to_fix now sc =
    is_pending sc.status && ltb (sc.timestamp + 3 * 60000000000) now
    || (is_failed sc.status || has_error sc.error)

unfoldable pub need_fix : ℕ → Map Scanned → List ℕ
need_fix now [] = []
need_fix now ((kv, sc) ∷ stats) =
    let rest = need_fix now stats in if to_fix now sc then insert_sorted kv rest else rest

-- mismatchTracker.failed
unfoldable pub failed_kvs : Map Scanned → List ℕ
failed_kvs [] = []
failed_kvs ((kv, sc) ∷ stats) =
    let rest = failed_kvs stats in if is_failed sc.status then insert_sorted kv rest else rest

-- The marks that are no deletion.
abbrev pub mark_error : Error → Option Scanned
mark_error e = some (record { status = unreadable; timestamp = 0; error = some e })

abbrev pub mark_failed : Error → Option Scanned
mark_failed e = some (record { status = failed; timestamp = 0; error = some e })

abbrev pub mark_mismatched : ℕ → Option Scanned
mark_mismatched now = some (record { status = pending; timestamp = now; error = none })

-- errors.As with a *CommitMismatchError
abbrev pub is_commit_mismatch : Error → Bool
is_commit_mismatch commit_mismatch = true
is_commit_mismatch commit_length = true
is_commit_mismatch _ = false

-- The commit in the metadata of the contract, as a hash.
unfoldable pub meta_commit : List ℕ → List ℕ
meta_commit meta = pad_to 32 (take hash_size_in_contract (drop (32 - hash_size_in_contract) meta))

-- `!found` without an error is an error too.
abbrev or_not_found : {A : Type 0} → Error → Outcome (Option A) → Outcome A
or_not_found e (ok none) = err e
or_not_found e (ok (some a)) = ok a
or_not_found e (err f) = err f
or_not_found e panic = panic

module _ (x : Externals) where
  -- What scanKv finds: the mode check_block is replaced by its caller. Metadata that is not nil is
  -- compared, also beside an error.
  unfoldable pub check_kv : ScanMode → StorageManager → ℕ → List ℕ → Outcome (Unit {0})
  check_kv check_meta s kv commit = elim (try_meta_buffer s.shard_manager kv) [
    | some meta ↦ compare_commits commit meta
    | none ↦ elim (try_read_meta s.shard_manager kv) [
      | ok none ↦ err scan_not_found
      | ok (some meta) ↦ ok tt
      | err e ↦ err scan_meta_failed
      | panic ↦ panic
    ]
  ]
  check_kv _ s kv commit =
      or_not_found scan_not_found (try_read x s.shard_manager kv s.shard_manager.kv_size commit)
      >>= λ blob. ok tt

  unfoldable pub scan_kv :
      ℕ → ScanMode → StorageManager → ℕ → List ℕ → Map Scanned → Outcome (Map Scanned)
  scan_kv now mode s kv commit stats = elim (check_kv mode s kv commit) [
    | ok _ ↦ ok stats
    | err e ↦
        ok (
          update_stats kv (if is_commit_mismatch e then mark_mismatched now else mark_error e)
            stats)
    | panic ↦ panic
  ]

  -- The loop of scanBatch over the metadata from position i on. `done i` says that the context is
  -- done there: the loop ends with an error, and what was recorded stays.
  unfoldable pub scan_metas :
      ℕ
      → ScanMode
      → StorageManager
      → (ℕ → Bool)
      → ℕ
      → List ℕ
      → List (List ℕ)
      → Map Scanned
      → Outcome (Unit {0}) × Map Scanned
  scan_metas now mode s done i kvs [] stats = (ok tt, stats)
  scan_metas now mode s done i [] (meta ∷ metas) stats =
      (if done i then err scan_canceled else panic, stats)
  scan_metas now mode s done i (kv ∷ kvs) (meta ∷ metas) stats = elim (done i) [
    | true ↦ (err scan_canceled, stats)
    | false ↦ elim (scan_kv now mode s kv (meta_commit meta) stats) [
      | ok m ↦ scan_metas now mode s done (i + 1) kvs metas m
      | err e ↦ (err e, stats)
      | panic ↦ (panic, stats)
    ]
  ]

  module _ (l1 : L1Source) (fetch_blob : ℕ → List ℕ → Outcome (List ℕ)) where
    unfoldable pub fix_kv :
        ℕ → List ℕ → StorageManager → Map Scanned → Outcome (Map Scanned) × StorageManager
    fix_kv kv commit s stats = elim (check_kv check_blob s kv commit) [
      | ok _ ↦ (ok (update_stats kv none stats), s)
      | panic ↦ (panic, s)
      | err e ↦
          if is_commit_mismatch e
          then (let (r, s') = try_write_with_meta_check x l1 fetch_blob kv commit s in
              (
                elim r [
                  | ok _ ↦ ok (update_stats kv none stats)
                  | err f ↦ ok (update_stats kv (mark_failed f) stats)
                  | panic ↦ panic
                ],
                s',
              ))
          else (ok (update_stats kv (mark_error e) stats), s)
    ]
