-- ===== src/Downloader/Start.antt =====
-- ethstorage/downloader/downloader.go, Start: where the download goes on.
use es_node.Prelude.{ℕ, zero, suc, ◌≡◌, refl, Option, none, some}
use es_node.Prelude.Int.{ℤ, pos, negsuc}
use es_node.Outcome.{Outcome, ok, err, Exec, then_do, bad_download_start}
use es_node.Storage.{L1Source, reset}
use es_node.Downloader.Loops.{Downloader}

-- The configured start: 0 asks for the saved block, or else the finalized one, as -3 does; other
-- negative numbers are refused.
unfoldable pub start_block : ℤ → Option ℕ → Outcome ℕ → Outcome ℕ
start_block (pos zero) none finalized = finalized
start_block (pos zero) (some saved) finalized = ok saved
start_block (pos (suc n)) saved finalized = ok (suc n)
start_block (negsuc zero) saved finalized = err bad_download_start
start_block (negsuc (suc zero)) saved finalized = err bad_download_start
start_block (negsuc (suc (suc zero))) saved finalized = finalized
start_block (negsuc (suc (suc (suc n)))) saved finalized = err bad_download_start

-- The fields that Start sets before the loop runs; the storage takes the block as its view of L1.
unfoldable pub start : {C : Type 0} → L1Source → ℤ → Outcome ℕ → Exec (Downloader C) (Unit {0})
unfolding start_block
start l1 configured finalized d =
    then_do (start_block configured d.saved_block finalized, d)
      λ block e.
        let counted = record e {
          last_download_block = block;
          downloaded_blobs = elim e.saved_blobs [ none ↦ e.downloaded_blobs | some n ↦ n ];
        } in
        let r = reset l1 (pos block) counted.storage in (r.0, record counted { storage = r.1 })

-- A node that saved its last block, and is started again without a configured start while the
-- contract answers, goes on behind that block, and its storage takes that block as its view of L1.
pub start-resumes :
    {C : Type 0} (l1 : L1Source) (finalized : Outcome ℕ) (d : Downloader C) (block count : ℕ)
    → d.saved_block ≡ some block
    → l1.get_storage_kv_entry_count (pos block) ≡ ok count
    → ((start l1 (pos 0) finalized d).0 ≡ ok tt)
      × ((start l1 (pos 0) finalized d).1.last_download_block ≡ block)
      × ((start l1 (pos 0) finalized d).1.storage.local_l1 ≡ pos block)
      × ((start l1 (pos 0) finalized d).1.storage.kv_entry_count ≡ count)
unfolding start start_block reset
start-resumes l1 finalized d block count saved answered =
    rw (start, saved, reset, answered) (refl, refl, refl, refl)
