-- ===== src/Storage/MetaDownload.antt =====
-- ethstorage/storage_manager.go, DownloadAllMetas, downloadMetaInParallel and downloadMetaInRange:
-- batches of metadata from the contract. The lock is released between reading the view of L1 and
-- storing a batch: what others do then is an argument, as are the answers of the contract.
use es_node.Prelude.{
  ℕ, zero, suc, ◌+◌, ◌-◌, ◌/◌, min, Bool, true, false, ◌&&◌, List, [], ◌∷◌, Option, none, some, ltb,
  ◌==◌, if◌then◌else◌, ◌+64◌, ◌-64◌, ◌*64◌,
}
use es_node.Prelude.Int.{ℤ, leb_ℤ}
use es_node.Outcome.{Outcome, ok, err, panic}
use es_node.Manager.{Map, insert, shard_ids}
use es_node.Storage.{StorageManager}

-- The environment of a download, by round: the answer to each attempt, what other goroutines do
-- while the lock is free, and whether the context is done after the round.
pub record Env : Type 0 where
  pub ask : ℕ → ℕ → List ℕ → ℤ → Outcome (List (List ℕ))
  pub between : ℕ → StorageManager → StorageManager
  pub cancelled : ℕ → Bool

abbrev pub same_block : ℤ → ℤ → Bool
same_block a b = leb_ℤ a b && leb_ℤ b a

-- from, from + 1, ..., `n` of them
unfoldable pub indices_from : ℕ → ℕ → List ℕ
indices_from zero i = []
indices_from (suc n) i = i ∷ indices_from n (i + 1)

-- The first request and up to `left` retries.
unfoldable pub retried : ℕ → ℕ → (ℕ → Outcome (List (List ℕ))) → Outcome (List (List ℕ))
retried zero attempt ask = ask attempt
retried (suc left) attempt ask =
    let again = retried left (attempt + 1) ask in
    elim (ask attempt) [ ok metas ↦ ok metas | err _ ↦ again | panic ↦ panic ]

-- s.blobMetas[kvIndices[i]] = meta: more metadata than indices is a panic.
unfoldable pub store_metas : List ℕ → List (List ℕ) → Map (List ℕ) → Outcome (Map (List ℕ))
store_metas is [] m = ok m
store_metas [] (meta ∷ metas) m = panic
store_metas (i ∷ is) (meta ∷ metas) m = store_metas is metas (insert i meta m)

module _ (env : Env) (batch_size to : ℕ) where
  -- `none` means that the fuel ran out.
  unfoldable pub download_meta_in_range :
      ℕ → ℕ → ℕ → StorageManager → Option (Outcome (Unit {0}) × StorageManager)
  download_meta_in_range zero round from s = none
  download_meta_in_range (suc fuel) round from s =
      let batch_limit = min (min (from +64 batch_size) to) s.kv_entry_count in
      let is = indices_from (batch_limit - from) from in
      elim (ltb from to) [
        | false ↦ some (ok tt, s)
        | true ↦ elim (retried 10 0 (λ attempt. env.ask round attempt is s.local_l1)) [
          | err e ↦ some (err e, s)
          | panic ↦ some (panic, s)
          | ok metas ↦
              let s' = env.between round s in
              elim (same_block s.local_l1 s'.local_l1) [
                | false ↦ download_meta_in_range fuel (round + 1) from s'
                | true ↦ elim (store_metas is metas s'.blob_metas) [
                  | err e ↦ some (err e, s')
                  | panic ↦ some (panic, s')
                  | ok m ↦
                      let s'' = record s' { blob_metas = m } in
                      elim (env.cancelled round) [
                        | true ↦ some (ok tt, s'')
                        | false ↦ download_meta_in_range fuel (round + 1) batch_limit s''
                      ]
                ]
              ]
        ]
      ]

-- The ranges of the goroutines task_idx, ..., of which `left` are left: the first start is 0.
unfoldable pub parallel_ranges : ℕ → ℕ → ℕ → ℕ → List (ℕ × ℕ)
parallel_ranges to range_size task_idx zero = []
parallel_ranges to range_size task_idx (suc left) =
    let end = if left == 0 then to else (task_idx +64 1) *64 range_size in
    (task_idx *64 range_size, end) ∷ parallel_ranges to range_size (task_idx + 1) left

-- One range for a small number of entries.
unfoldable pub download_ranges : ℕ → ℕ → ℕ → List (ℕ × ℕ)
download_ranges batch_size from to =
    if ltb (to -64 from) (32 *64 batch_size)
    then (from, to) ∷ []
    else parallel_ranges to ((to -64 from) / 32) 0 32

-- The goroutines in the order of their ranges: each has its environment, in which the others work.
unfoldable pub download_meta_in_parallel :
    (ℕ → Env)
    → ℕ
    → ℕ
    → ℕ
    → List (ℕ × ℕ)
    → StorageManager
    → Option (Outcome (Unit {0}) × StorageManager)
download_meta_in_parallel envs batch_size fuel task_id [] s = some (ok tt, s)
download_meta_in_parallel envs batch_size fuel task_id ((from, to) ∷ rs) s =
    elim (download_meta_in_range (envs task_id) batch_size to fuel 0 from s) [
      | none ↦ none
      | some (ok u, s') ↦ download_meta_in_parallel envs batch_size fuel (task_id + 1) rs s'
      | some (err e, s') ↦
          elim (download_meta_in_parallel envs batch_size fuel (task_id + 1) rs s') [
            | none ↦ none
            | some (panic, s'') ↦ some (panic, s'')
            | some (_, s'') ↦ some (err e, s'')
          ]
      | some (panic, s') ↦ some (panic, s')
    ]

-- The part of a shard before the last entry of the contract, if there is one.
unfoldable pub shard_range : ℕ → ℕ → ℕ → Option (ℕ × ℕ)
shard_range kv_entries kv_entry_count sid =
    let first = kv_entries *64 sid in
    let end = min (kv_entries *64 (sid +64 1)) kv_entry_count in
    if ltb end first then none else some (first, end)

unfoldable pub download_shards :
    (ℕ → ℕ → Env)
    → ℕ
    → ℕ
    → ℕ
    → List ℕ
    → StorageManager
    → Option (Outcome (Unit {0}) × StorageManager)
download_shards envs batch_size fuel kv_entry_count [] s = some (ok tt, s)
download_shards envs batch_size fuel kv_entry_count (sid ∷ sids) s =
    elim (shard_range s.shard_manager.kv_entries kv_entry_count sid) [
      | none ↦ download_shards envs batch_size fuel kv_entry_count sids s
      | some (first, end) ↦
          elim (download_meta_in_parallel (envs sid) batch_size fuel 0
            (download_ranges batch_size first end) s) [
              | none ↦ none
              | some (ok u, s') ↦ download_shards envs batch_size fuel kv_entry_count sids s'
              | some (err e, s') ↦ some (err e, s')
              | some (panic, s') ↦ some (panic, s')
            ]
    ]

unfoldable pub download_all_metas :
    (ℕ → ℕ → Env) → ℕ → ℕ → StorageManager → Option (Outcome (Unit {0}) × StorageManager)
download_all_metas envs batch_size fuel s =
    download_shards envs batch_size fuel s.kv_entry_count (shard_ids s.shard_manager) s
