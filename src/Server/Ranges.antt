-- ===== src/Server/Ranges.antt =====
-- The answer to a range request (ethstorage/p2p/protocol/syncserver.go).
use es_node.Prelude.{
  ℕ, zero, suc, ◌+◌, ◌-◌, ◌^◌, ◌<◌, ◌≤◌, ◌≡◌, refl, ap, ◌∙◌, Bool-cases, true, false, inl, inr,
  List, some, length, leb, min, arith, u64_fits, ◌+64◌,
}
use es_node.Outcome.{Outcome, ok}
use es_node.Server.{
  SyncServer, GetBlobsByRange, serve_list, serve_range, max_request_size, success, with_blob,
}
use es_node.Server.Handlers.{
  handle_get_blobs_by_range, count_provided, range_answer, reply_with, send,
}
use es_node.Server.Lists.{Reads, is_ok, is_err, readable, until_full, serve_list-eq}
use es_node.Server
use es_node.Storage.MetaDownload.{indices_from}
use es_node.Sync.Client.{BlobPayload}

module _ (read_blob : ℕ → Outcome BlobPayload) (maxbytes : ℕ) where
  -- A range is served like the list of its n indices, if the fuel and the index do not run out.
  serve_range-list :
      (n fuel limit id sum : ℕ)
      → Reads read_blob (indices_from n id)
      → id + n ≡ limit + 1
      → n < fuel
      → limit + 1 < 2 ^ 64
      → serve_range read_blob maxbytes fuel limit id sum
        ≡ some (serve_list read_blob maxbytes (indices_from n id) sum)
  unfolding serve_range serve_list indices_from
  serve_range-list n zero limit id sum r e enough small = absurd (omega arith)
  serve_range-list zero (suc fuel) limit id sum r e enough small =
      let past : leb id limit ≡ false = ground arith in rw (serve_range, past) refl
  serve_range-list (suc n) (suc fuel) limit id sum r e enough small =
      let inside : leb id limit ≡ true = ground arith in
      let next : id +64 1 ≡ id + 1 = u64_fits (id + 1) (omega arith) in
      let rest =
        λ (k : ℕ). serve_range-list n fuel limit (id + 1) k r.1 (omega arith) (omega arith) small in
      elim r.0 [
        | is_err e h ↦ rw (serve_range, inside, serve_list, h, next) (rest sum)
        | is_ok p h size ↦ elim (Bool-cases (leb maxbytes (sum +64 length p.encoded_blob))) [
          | inl full ↦ rw (serve_range, inside, serve_list, h, full) refl
          | inr more ↦
              rw
                (
                  serve_range,
                  inside,
                  serve_list,
                  h,
                  more,
                  next,
                  rest (sum +64 length p.encoded_blob),
                )
                refl
        ]
      ]

-- The blobs of a range that fill an answer.
unfoldable pub range_blobs : (ℕ → Outcome BlobPayload) → GetBlobsByRange → List BlobPayload
range_blobs read_blob req =
    until_full (min max_request_size req.bytes) 0
      (readable read_blob (indices_from (req.limit + 1 - req.origin) req.origin))

module _ (read_blob : ℕ → Outcome BlobPayload) (req : GetBlobsByRange)
    (reads : Reads read_blob (indices_from (req.limit + 1 - req.origin) req.origin))
    (ordered : req.origin ≤ req.limit) (small : req.limit + 1 < 2 ^ 64) (fuel : ℕ)
    (enough : req.limit + 1 - req.origin < fuel) (msg reply : List ℕ) (srv : SyncServer) where
  serve_range-range_blobs :
      serve_range read_blob (min max_request_size req.bytes) fuel req.limit req.origin 0
      ≡ some (ok (range_blobs read_blob req))
  unfolding range_blobs
  serve_range-range_blobs =
      serve_range-list read_blob (min max_request_size req.bytes) (req.limit + 1 - req.origin) fuel
        req.limit req.origin 0 reads (omega arith) enough small
      ∙ ap some (
          serve_list-eq read_blob (min max_request_size req.bytes)
            (indices_from (req.limit + 1 - req.origin) req.origin) 0 reads (omega arith)
            (omega arith))

  -- When limitPeer and ReadMsg succeed, the message is a request for a range that is not empty and
  -- ends before the largest uint64, its blobs are read without a panic and each have fewer than
  -- 2 ^ 63 bytes, and the answer can be encoded, then fuel for one turn more than the range has
  -- indices is enough: the handler sends the blobs of the range that can be read, in ascending
  -- order, up to the first one with which they have as many bytes as were asked for, or 8 MB, and
  -- it counts them for the shard of the request.
  pub handle_get_blobs_by_range-answers :
      (decode : List ℕ → Outcome GetBlobsByRange) (encode : Server.BlobsAnswer → Outcome (List ℕ))
      → decode msg ≡ ok req
      → encode (range_answer req (range_blobs read_blob req)) ≡ ok reply
      → handle_get_blobs_by_range read_blob (ok tt) (ok msg) encode fuel decode srv
        ≡ some (
          ok (success, reply),
          count_provided req.shard_id (length (range_blobs read_blob req)) srv,
        )
  unfolding handle_get_blobs_by_range reply_with send range_answer
  handle_get_blobs_by_range-answers decode encode d e = rw (d, serve_range-range_blobs, e) refl
