-- ===== src/Downloader/Fetch.antt =====
-- ethstorage/downloader/downloader.go, downloadRange and what it calls: from the events of a range
-- of blocks to blobs that are encoded for the local shards.
use es_node.Prelude.{
  ℕ, zero, suc, ◌+◌, ◌/◌, ◌^◌, ltb, Bool, true, false, List, [], ◌∷◌, ◌++◌, Option, none, some,
  if◌then◌else◌, bytes_equal, u64,
}
use es_node.Outcome.{Error, Outcome, ok, err, panic, ◌>>=◌, Exec, then_do, fetch_blob_failed}
use es_node.Externals.{Externals}
use es_node.Manager.{ShardManager, shard_ids}
use es_node.Storage.{L1Source}
use es_node.Storage.Blobs.{encode_blob}
use es_node.Sync.{elem}
use es_node.Downloader.{Blob, BlockBlobs, Event, BlobCache, events_to_blocks}

-- A map from versioned hashes to blobs.
abbrev pub ByHash : Type 0
ByHash = List (List ℕ × List ℕ)

unfoldable pub lookup_hash : List ℕ → ByHash → Option (List ℕ)
lookup_hash hash [] = none
lookup_hash hash ((h, b) ∷ m) = if bytes_equal h hash then some b else lookup_hash hash m

-- What is answered during one turn of a loop.
pub record Round : Type 0 where
  -- FilterLogsByBlockRange, and the time of HeaderByNumber
  pub filter_logs : ℕ → ℕ → Outcome (List Event)
  pub header_time : ℕ → Outcome ℕ
  -- downloadBlobs, by the number of the attempt
  pub download_blobs : BlockBlobs → ℕ → Outcome ByHash
  -- email.SendEmail succeeded, which without an address it does not
  pub mail_sent : Blob → Bool
  -- the contract, and the order in which DownloadFinished's goroutines write
  pub l1 : L1Source
  pub schedule : List ℕ
  -- db.Put of lastDownloadKey and of downloadedBlobsKey
  pub put_block : Outcome (Unit {0})
  pub put_blobs : Outcome (Unit {0})

-- The attempts from `attempt` on, `n` of them. The last error stays.
unfoldable pub attempts : ℕ → ℕ → (ℕ → Outcome ByHash) → Error → Outcome ByHash
attempts zero attempt ask last = err last
attempts (suc n) attempt ask last = elim (ask attempt) [
  | ok found ↦ ok found
  | err e ↦ attempts n (attempt + 1) ask e
  | panic ↦ panic
]

-- Three attempts; after that the block has no blob.
unfoldable pub download_blobs_with_retry : (ℕ → Outcome ByHash) → Outcome ByHash
unfolding attempts
download_blobs_with_retry ask = elim (attempts 3 1 ask fetch_blob_failed) [
  | ok found ↦ ok found
  | err _ ↦ ok []
  | panic ↦ panic
]

-- notifyBlobMissing: without a mail the process exits.
abbrev pub notify_blob_missing : Bool → Outcome (Unit {0})
notify_blob_missing true = ok tt
notify_blob_missing false = panic

module _ (x : Externals) (sm : ShardManager) (round : Round) where
  -- A blob of the block with its data, or as it was: of a shard that is not here, or missing.
  unfoldable pub fill_blob : ByHash → Blob → Outcome (Option (List ℕ))
  fill_blob found b =
      if elem (u64 b.kv_index / 2 ^ sm.kv_entries_bits) (shard_ids sm)
      then elim (lookup_hash b.hash found) [
        | none ↦ notify_blob_missing (round.mail_sent b) >>= λ _. ok none
        | some bytes ↦
            encode_blob x sm bytes b.hash (u64 b.kv_index) sm.kv_size >>= λ coded. ok (some coded)
      ]
      else ok none

  -- The blobs of the block as they are left, and those that were downloaded.
  unfoldable pub fill_blobs : ByHash → List Blob → Outcome (List Blob × List Blob)
  fill_blobs found [] = ok ([], [])
  fill_blobs found (b ∷ bs) =
      let rest = fill_blobs found bs in
      (do
        filled ← fill_blob found b
        others ← rest
        ok (elim filled [
          | none ↦ (b ∷ others.0, others.1)
          | some coded ↦
              let b' = record b { blob_data = some coded } in (b' ∷ others.0, b' ∷ others.1)
        ]))

  module _ {C : Type 0} (cache : BlobCache C) where
    -- A block that is in the cache is taken from there, whatever its events say.
    unfoldable pub download_blocks : Bool → List BlockBlobs → List Blob → Exec C (List Blob)
    unfolding download_blobs_with_retry
    download_blocks to_cache [] blobs c = (ok blobs, c)
    download_blocks to_cache (block ∷ blocks) blobs c = elim (cache.blobs block.number c) [
      | some cached ↦ download_blocks to_cache blocks (blobs ++ cached) c
      | none ↦
          then_do
            (
              download_blobs_with_retry (round.download_blobs block) >>= λ found.
                  fill_blobs found block.blobs,
              c,
            )
            λ filled c'.
              if to_cache
              then then_do (cache.set_block_blobs (record block { blobs = filled.0 }) c')
                  (λ _ c''. download_blocks to_cache blocks (blobs ++ filled.1) c'')
              else download_blocks to_cache blocks (blobs ++ filled.1) c'
    ]

    unfoldable pub download_range : ℕ → ℕ → Bool → Exec C (List Blob)
    download_range start end to_cache c =
        then_do
          (
            round.filter_logs start (if ltb end start then start else end) >>= λ events.
                events_to_blocks round.header_time events,
            c,
          )
          λ blocks c'. download_blocks to_cache blocks [] c'
