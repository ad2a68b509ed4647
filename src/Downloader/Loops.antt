-- ===== src/Downloader/Loops.antt =====
-- ethstorage/downloader/downloader.go: the heads, and the loops of download and downloadToCache.
use es_node.Prelude.{
  ℕ, zero, suc, ◌+◌, ◌-◌, min, Bool, true, false, ◌&&◌, List, Option, none, some, length, ltb, ◌==◌,
  if◌then◌else◌, ◌+64◌,
}
use es_node.Prelude.Int.{pos}
use es_node.Outcome.{Outcome, ok, err, panic}
use es_node.Externals.{Externals}
use es_node.Storage.{StorageManager}
use es_node.Storage.Download.{download_finished}
use es_node.Downloader.{Blob, BlobCache, no_writes, writes_of}
use es_node.Downloader.Fetch.{Round, download_range}

abbrev pub download_batch_size : ℕ
download_batch_size = 64

-- The blocks and the blobs that the database has are those of lastDownloadKey and
-- downloadedBlobsKey.
pub record Downloader (C : Type 0) : Type 0 where
  pub cache : C
  pub storage : StorageManager
  pub last_download_block : ℕ
  pub last_cache_block : ℕ
  pub finalized_head : ℕ
  pub latest_head : ℕ
  pub min_duration : ℕ
  pub downloaded_blobs : ℕ
  pub saved_block : Option ℕ
  pub saved_blobs : Option ℕ

unfoldable pub on_l1_finalized : {C : Type 0} → ℕ → Downloader C → Downloader C
on_l1_finalized finalized d = record d { finalized_head = finalized }

unfoldable pub on_new_l1_head : {C : Type 0} → ℕ → Downloader C → Downloader C
on_new_l1_head number d = record d { latest_head = number }

-- How a turn of a loop ends: it goes on, or the method returns.
pub data Turn : Type 0 where
  again returned : Turn

-- A run of a loop: `none` if the fuel ran out or a schedule was too short.
abbrev pub Run : Type 0 → Type 0
Run C = Option (Outcome Turn × Downloader C)

module _ (x : Externals) {C : Type 0} (cache : BlobCache C) where
  -- After DownloadFinished: the counter, and the two keys of the database.
  unfoldable pub save_progress : Round → ℕ → ℕ → Downloader C → Outcome Turn × Downloader C
  save_progress round end count d =
      let counted = record d { downloaded_blobs = d.downloaded_blobs +64 count } in
      let block_saved = record counted { saved_block = some end } in
      elim round.put_block [
        | ok _ ↦ elim round.put_blobs [
          | ok _ ↦ (
            ok again,
            record block_saved {
              saved_blobs = some counted.downloaded_blobs;
              last_download_block = end;
            },
          )
          | err _ ↦ (ok returned, block_saved)
          | panic ↦ (panic, block_saved)
        ]
        | err _ ↦ (ok returned, counted)
        | panic ↦ (panic, counted)
      ]

  unfoldable pub save_blobs : Round → ℕ → List Blob → Downloader C → Run C
  unfolding save_progress writes_of
  save_blobs round end blobs d =
      let w = writes_of blobs no_writes in
      elim (download_finished round.l1 round.schedule (pos end) w.kv_indices w.data_blobs w.metas
        d.storage) [
          | none ↦ none
          | some (ok _, s) ↦
              some (save_progress round end (length blobs) (record d { storage = s }))
          | some (err _, s) ↦ some (ok returned, record d { storage = s })
          | some (panic, s) ↦ some (panic, record d { storage = s })
        ]

  -- A turn of the loop of download up to `head`: after an error of downloadRange it is repeated.
  unfoldable pub download_turn : Round → ℕ → Downloader C → Run C
  unfolding save_blobs
  download_turn round head d =
      let end = min (d.last_download_block + download_batch_size) head in
      let r =
        download_range x d.storage.shard_manager round cache (d.last_download_block + 1) end false
          d.cache in
      let d' = record d { cache = r.1 } in
      elim r.0 [
        | ok blobs ↦ save_blobs round end blobs d'
        | err _ ↦ some (ok again, d')
        | panic ↦ some (panic, d')
      ]

  -- Turn `n` gets the answers of round n. The loop ends with `again` when the head is reached.
  unfoldable pub download_loop : ℕ → ℕ → (ℕ → Round) → ℕ → Downloader C → Run C
  unfolding download_turn
  download_loop zero n rounds head d = none
  download_loop (suc fuel) n rounds head d = elim (ltb d.last_download_block head) [
    | false ↦ some (ok again, d)
    | true ↦ elim (download_turn (rounds n) head d) [
      | some (ok again, d') ↦ download_loop fuel (n + 1) rounds head d'
      | some (ok returned, d') ↦ some (ok returned, d')
      | some (err e, d') ↦ some (err e, d')
      | some (panic, d') ↦ some (panic, d')
      | none ↦ none
    ]
  ]

  -- Blobs that L1 does not keep any more are not asked for.
  abbrev pub too_late : ℕ → Downloader C → Bool
  too_late head d = ltb 0 d.last_download_block && ltb d.min_duration (head - d.last_download_block)

  -- Only after a loop that ran to its end the cache is cleaned.
  unfoldable pub download : ℕ → (ℕ → Round) → Downloader C → Run C
  download fuel rounds d =
      let head = d.finalized_head in
      elim (too_late head d) [
        | true ↦ some (ok returned, d)
        | false ↦ elim (download_loop fuel 0 rounds head d) [
          | some (ok again, d') ↦ some (ok again, record d' { cache = cache.cleanup head d'.cache })
          | some (ok returned, d') ↦ some (ok returned, d')
          | some (err e, d') ↦ some (err e, d')
          | some (panic, d') ↦ some (panic, d')
          | none ↦ none
        ]
      ]

  unfoldable pub cache_loop : ℕ → ℕ → (ℕ → Round) → ℕ → ℕ → Downloader C → Run C
  cache_loop zero n rounds start end d = none
  cache_loop (suc fuel) n rounds start end d = elim (ltb start end) [
    | false ↦ some (ok again, d)
    | true ↦
        let range_end = min (start + download_batch_size) end in
        let r =
          download_range x d.storage.shard_manager (rounds n) cache (start + 1) range_end true
            d.cache in
        let d' = record d { cache = r.1 } in
        elim r.0 [
          | ok _ ↦
              cache_loop fuel (n + 1) rounds range_end end
                (record d' { last_cache_block = range_end })
          | err _ ↦ some (ok returned, d')
          | panic ↦ some (panic, d')
        ]
  ]

  -- Nothing is cached before the first finalized head is known.
  unfoldable pub download_to_cache : ℕ → (ℕ → Round) → Downloader C → Run C
  unfolding cache_loop
  download_to_cache fuel rounds d = elim (d.finalized_head == 0) [
    | true ↦ some (ok returned, d)
    | false ↦
        cache_loop fuel 0 rounds
          (if d.last_cache_block == 0 then d.finalized_head else d.last_cache_block) d.latest_head d
  ]
