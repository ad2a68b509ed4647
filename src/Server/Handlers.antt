-- ===== src/Server/Handlers.antt =====
-- ethstorage/p2p/protocol/syncserver.go, handleGetBlobsByRangeRequest and
-- handleGetBlobsByListRequest: the steps of a handler, each of which may end it.
use es_node.Prelude.{ℕ, min, List, [], Option, none, some, length, ◌+64◌}
use es_node.Outcome.{Outcome, ok, err, panic}
use es_node.Manager.{lookup, insert}
use es_node.Server.{
  SyncServer, GetBlobsByRange, GetBlobsByList, BlobsAnswer, ReturnCode, max_request_size,
  serve_list, serve_range, success, read_error, invalid_request, server_error,
}
use es_node.Sync.Client.{BlobPayload}

-- A code with the bytes of the answer, and the server that the handler leaves. `none` means that
-- the fuel of the loop over the range ran out.
abbrev pub Reply : Type 0
Reply = Option (Outcome (ReturnCode × List ℕ) × SyncServer)

-- An error ends the handler with its code and without bytes.
abbrev pub or_reply : {A : Type 0} → ReturnCode → Outcome A → SyncServer → (A → Reply) → Reply
or_reply code (ok a) srv next = next a
or_reply code (err e) srv next = some (ok (code, []), srv)
or_reply code panic srv next = some (panic, srv)

-- The blobs are counted for the shard that the request names, whichever it is.
unfoldable pub count_provided : ℕ → ℕ → SyncServer → SyncServer
count_provided shard n srv = record srv {
  provided_blobs =
      insert shard (elim (lookup shard srv.provided_blobs) [ none ↦ 0 | some k ↦ k ] +64 n)
        srv.provided_blobs;
}

unfoldable pub range_answer : GetBlobsByRange → List BlobPayload → BlobsAnswer
range_answer req payloads = record {
  id = req.id;
  contract = req.contract;
  shard_id = req.shard_id;
  blobs = payloads;
}

unfoldable pub list_answer : GetBlobsByList → List BlobPayload → BlobsAnswer
list_answer req payloads = record {
  id = req.id;
  contract = req.contract;
  shard_id = req.shard_id;
  blobs = payloads;
}

-- The arguments: BlobByIndex, what limitPeer and ReadMsg answered, and rlp.EncodeToBytes.
module _ (read_blob : ℕ → Outcome BlobPayload) (limited : Outcome (Unit {0}))
    (msg : Outcome (List ℕ)) (encode : BlobsAnswer → Outcome (List ℕ)) where
  unfoldable pub send : BlobsAnswer → SyncServer → Reply
  unfolding count_provided
  send answer srv =
      let srv' = count_provided answer.shard_id (length answer.blobs) srv in
      or_reply server_error (encode answer) srv' (λ bytes. some (ok (success, bytes), srv'))

  unfoldable pub reply_with : Option (Outcome BlobsAnswer) → SyncServer → Reply
  reply_with none srv = none
  reply_with (some (ok answer)) srv = send answer srv
  reply_with (some (err e)) srv = some (err e, srv)
  reply_with (some panic) srv = some (panic, srv)

  abbrev answered :
      (List BlobPayload → BlobsAnswer) → Outcome (List BlobPayload) → Outcome BlobsAnswer
  answered f (ok payloads) = ok (f payloads)
  answered f (err e) = err e
  answered f panic = panic

  abbrev answered_later :
      (List BlobPayload → BlobsAnswer)
      → Option (Outcome (List BlobPayload))
      → Option (Outcome BlobsAnswer)
  answered_later f none = none
  answered_later f (some r) = some (answered f r)

  -- The handlers, for the RLP decoding of the request.
  unfoldable pub handle_get_blobs_by_range :
      ℕ → (List ℕ → Outcome GetBlobsByRange) → SyncServer → Reply
  handle_get_blobs_by_range fuel decode srv = or_reply server_error limited srv λ _.
      or_reply read_error msg srv λ bytes. or_reply invalid_request (decode bytes) srv λ req.
        reply_with
          (answered_later (range_answer req)
            (serve_range read_blob (min max_request_size req.bytes) fuel req.limit req.origin 0))
          srv

  unfoldable pub handle_get_blobs_by_list : (List ℕ → Outcome GetBlobsByList) → SyncServer → Reply
  handle_get_blobs_by_list decode srv = or_reply server_error limited srv λ _.
      or_reply read_error msg srv λ bytes. or_reply invalid_request (decode bytes) srv λ req.
        reply_with
          (some (
            answered (list_answer req)
              (serve_list read_blob (min max_request_size req.bytes) req.blob_list 0)))
          srv
