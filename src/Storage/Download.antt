-- ===== src/Storage/Download.antt =====
-- ethstorage/storage_manager.go, DownloadFinished: the blobs of new finalized blocks are written
-- by several goroutines. A goroutine has a list of writes; a schedule says whose write is next.
use es_node.Prelude.{
  ℕ, zero, suc, ◌+◌, ◌-◌, min, Bool, true, false, List, [], ◌∷◌, Option, none, some, length,
  if◌then◌else◌,
}
use es_node.Prelude.Int.{ℤ, leb_ℤ}
use es_node.Outcome.{
  Error, Outcome, ok, err, panic, Exec, then_do, invalid_params_lens, new_l1_too_old,
}
use es_node.Commit.{prepare_commit}
use es_node.Manager.{ShardManager}
use es_node.Manager.Access.{try_write_encoded}
use es_node.Storage.{StorageManager, L1Source, update_local_metas}
use es_node.Storage.Commits.{lens_differ}

-- One write of a goroutine: the index, the blob and the commit.
pub record Item : Type 0 where
  pub kv_index : ℕ
  pub blob : List ℕ
  pub commit : List ℕ

unfoldable pub items : List ℕ → List (List ℕ) → List (List ℕ) → List Item
items (kv ∷ kvs) (b ∷ bs) (c ∷ cs) =
    record { kv_index = kv; blob = b; commit = c } ∷ items kvs bs cs
items _ _ _ = []

-- The items at i, i + n, i + 2 * n, ...: `skip` more are passed over before the next is taken.
unfoldable pub every : ℕ → ℕ → List Item → List Item
every n skip [] = []
every n zero (it ∷ its) = it ∷ every n (n - 1) its
every n (suc skip) (it ∷ its) = every n skip its

-- The lists of the goroutines `task_idx`, ..., `task_idx + left - 1` of `task_num`.
unfoldable pub tasks_from : ℕ → ℕ → ℕ → List Item → List (List Item)
tasks_from task_num task_idx zero its = []
tasks_from task_num task_idx (suc left) its =
    every task_num task_idx its ∷ tasks_from task_num (task_idx + 1) left its

-- No more goroutines than items.
unfoldable pub split_tasks : ℕ → List Item → List (List Item)
unfolding tasks_from
split_tasks task_num its = tasks_from task_num 0 (min task_num (length its)) its

-- One write. An error ends the goroutine's loop; the `err` that it sets is the one declared in the
-- loop, so that the goroutine still sends nil. Data of another node are skipped.
unfoldable pub perform : Item → List Item → ShardManager → Outcome (List Item) × ShardManager
perform it rest sm =
    let (r, sm') = try_write_encoded it.kv_index it.blob (prepare_commit it.commit) sm in
    elim r [ ok _ ↦ (ok rest, sm') | err _ ↦ (ok [], sm') | panic ↦ (panic, sm') ]

-- The goroutine `k` makes its next write, if it has one.
unfoldable pub step_task :
    ℕ → List (List Item) → ShardManager → Outcome (List (List Item)) × ShardManager
step_task k [] sm = (ok [], sm)
step_task zero ([] ∷ ts) sm = (ok ([] ∷ ts), sm)
step_task zero ((it ∷ rest) ∷ ts) sm =
    then_do (perform it rest sm) (λ left sm'. (ok (left ∷ ts), sm'))
step_task (suc k) (t ∷ ts) sm = then_do (step_task k ts sm) (λ ts' sm'. (ok (t ∷ ts'), sm'))

unfoldable pub run_tasks :
    List ℕ → List (List Item) → ShardManager → Outcome (List (List Item)) × ShardManager
run_tasks [] ts sm = (ok ts, sm)
run_tasks (k ∷ ks) ts sm = then_do (step_task k ts sm) (λ ts' sm'. run_tasks ks ts' sm')

unfoldable pub all_done : List (List Item) → Bool
all_done [] = true
all_done ([] ∷ ts) = all_done ts
all_done ((_ ∷ _) ∷ ts) = false

-- The results that the goroutines send: nil, whatever happened.
unfoldable pub first_error : List (Option Error) → Option Error
first_error [] = none
first_error (none ∷ rs) = first_error rs
first_error (some e ∷ rs) = some e

unfoldable pub sent : List (List Item) → List (Option Error)
sent [] = []
sent (_ ∷ ts) = none ∷ sent ts

-- What follows `wg.Wait()`.
unfoldable pub finish_download :
    L1Source → ℤ → List ℕ → List (List ℕ) → List (Option Error) → Exec StorageManager (Unit {0})
finish_download l1 new_l1 kv_indices commits results s = elim (first_error results) [
  | some e ↦ (err e, s)
  | none ↦
      then_do (l1.get_storage_kv_entry_count new_l1, s)
        λ count t.
          update_local_metas kv_indices commits
            (record t { kv_entry_count = count; local_l1 = new_l1 })
]

-- `none`: after the schedule some goroutine still has writes, and the method waits.
unfoldable pub download_finished :
    L1Source
    → List ℕ
    → ℤ
    → List ℕ
    → List (List ℕ)
    → List (List ℕ)
    → StorageManager
    → Option (Outcome (Unit {0}) × StorageManager)
download_finished l1 schedule new_l1 kv_indices blobs commits s =
    let tasks = split_tasks s.download_thread_num (items kv_indices blobs commits) in
    let (r, sm) = run_tasks schedule tasks s.shard_manager in
    let t = record s { shard_manager = sm } in
    if lens_differ kv_indices blobs commits
    then some (err invalid_params_lens, s)
    else if leb_ℤ new_l1 s.local_l1
    then some (err new_l1_too_old, s)
    else elim r [
      | ok left ↦
          if all_done left
          then some (finish_download l1 new_l1 kv_indices commits (sent tasks) t)
          else none
      | err e ↦ some (err e, t)
      | panic ↦ some (panic, t)
    ]
