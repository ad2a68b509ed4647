-- ===== src/Server/Endless.antt =====
-- The loop over a range that ends with the largest uint64 (ethstorage/p2p/protocol/syncserver.go,
-- handleGetBlobsByRangeRequest).
use es_node.Prelude.{
  ℕ, zero, suc, ◌-◌, ◌^◌, ◌<◌, ◌≡◌, refl, true, List, none, leb, min, arith, ◌+64◌,
}
use es_node.Outcome.{Error, Outcome, ok, err}
use es_node.Server.{SyncServer, GetBlobsByRange, BlobsAnswer, serve_range, max_request_size}
use es_node.Server.Handlers.{handle_get_blobs_by_range, reply_with}
use es_node.Sync.Client.{BlobPayload}

module _ (read_blob : ℕ → Outcome BlobPayload)
    (none_left : (i : ℕ) → (e : Error) × (read_blob i ≡ err e)) where
  serve_range-none :
      (maxbytes fuel id sum : ℕ)
      → id < 2 ^ 64
      → serve_range read_blob maxbytes fuel (2 ^ 64 - 1) id sum ≡ none
  unfolding serve_range
  serve_range-none maxbytes zero id sum small = refl
  serve_range-none maxbytes (suc fuel) id sum small =
      let inside : leb id (2 ^ 64 - 1) ≡ true = ground arith in
      rw (serve_range, inside, (none_left id).1)
        (serve_range-none maxbytes fuel (id +64 1) sum (omega arith))

  -- On a node without a readable blob, a request for the range up to the largest uint64, from any
  -- index that is a uint64, is never answered, however much fuel the loop has.
  pub handle_get_blobs_by_range-never :
      (fuel : ℕ) (limited : Outcome (Unit {0})) (msg : List ℕ) (req : GetBlobsByRange)
      (decode : List ℕ → Outcome GetBlobsByRange) (encode : BlobsAnswer → Outcome (List ℕ))
      (srv : SyncServer)
      → limited ≡ ok tt
      → decode msg ≡ ok req
      → req.limit ≡ 2 ^ 64 - 1
      → req.origin < 2 ^ 64
      → handle_get_blobs_by_range read_blob limited (ok msg) encode fuel decode srv ≡ none
  unfolding handle_get_blobs_by_range reply_with
  handle_get_blobs_by_range-never fuel limited msg req decode encode srv l d last small =
      rw (l, d, last, serve_range-none (min max_request_size req.bytes) fuel req.origin 0 small)
        refl
