-- ===== src/Sync/Client.antt =====
-- ethstorage/p2p/protocol/syncclient.go: requests of the sync client and the handling of answers,
-- and GetRoot of ethstorage/prover/kzg_prover.go. Between two critical sections of a handler
-- nothing is changed by others that it depends on: a sub task has one request at a time.
use es_node.Prelude.{
  ℕ, min, Bool, false, not, ◌&&◌, List, [], ◌∷◌, Option, none, some, length, take, replicate, ltb,
  leb, ◌==◌, if◌then◌else◌, bytes_equal, ◌+64◌, ◌-64◌, ◌*64◌,
}
use es_node.Outcome.{
  Outcome, ok, err, panic, ◌>>=◌, ◌>>◌, refuse_if, Exec, then_do, invalid_blob_size,
}
use es_node.Externals.{Externals}
use es_node.Commit.{kzg_blob}
use es_node.ChunkCode.{hash_size_in_contract}
use es_node.Manager.Access.{decode_kv}
use es_node.Storage.{StorageManager}
use es_node.Storage.Commits.{commit_blobs, commit_empty_blobs}
use es_node.Sync.{SubTask, Task, sort, settle_range, settle_list}

pub record BlobPayload : Type 0 where
  pub miner_address : List ℕ
  pub blob_index : ℕ
  pub blob_commit : List ℕ
  pub encode_type : ℕ
  pub encoded_blob : List ℕ

-- A request for the blobs from origin to limit, for the sub task at position sub_idx.
pub record BlobsByRangeRequest : Type 0 where
  pub peer : ℕ
  pub origin : ℕ
  pub limit : ℕ
  pub sub_idx : ℕ

-- What assignBlobRangeTasks asks a peer for, at most `max_range` blobs.
unfoldable pub range_request : ℕ → ℕ → ℕ → SubTask → BlobsByRangeRequest
range_request max_range peer sub_idx st = record {
  peer = peer;
  origin = st.next;
  limit = min (st.next +64 max_range) st.last -64 1;
  sub_idx = sub_idx;
}

unfoldable pub blobs_in_range : ℕ → ℕ → List BlobPayload → List BlobPayload
blobs_in_range origin limit [] = []
blobs_in_range origin limit (b ∷ bs) =
    let rest = blobs_in_range origin limit bs in
    if leb origin b.blob_index && leb b.blob_index limit then b ∷ rest else rest

abbrev pub blob_indices : List BlobPayload → List ℕ
blob_indices [] = []
blob_indices (b ∷ bs) = b.blob_index ∷ blob_indices bs

-- The blobs that were decoded and that fit their commits, as the lists for CommitBlobs.
pub record Accepted : Type 0 where
  pub indices : List ℕ
  pub decoded : List (List ℕ)
  pub commits : List (List ℕ)

abbrev pub accept : BlobPayload → List ℕ → Accepted → Accepted
accept b decoded a = record {
  indices = b.blob_index ∷ a.indices;
  decoded = decoded ∷ a.decoded;
  commits = b.blob_commit ∷ a.commits;
}

-- A peer that is not registered any more is not marked.
abbrev pub mark_stateless : Bool → ℕ → Task → Task
mark_stateless known peer t =
    if known then record t { stateless_peers = peer ∷ t.stateless_peers } else t

module _ (x : Externals) where
  -- KZGProver.GetRoot
  unfoldable pub get_root : List ℕ → Outcome (List ℕ)
  get_root [] = ok (replicate 32 0)
  get_root (b ∷ rest) = do
    refuse_if (not (length (b ∷ rest) == 131072)) invalid_blob_size
    commitment ← x.blob_to_commitment (kzg_blob (b ∷ rest))
    ok (x.bytes_to_hash (x.kzg_to_versioned_hash commitment))

  -- Data that cannot be decoded is skipped.
  unfoldable pub decode_payload : StorageManager → BlobPayload → Outcome (Option (List ℕ))
  decode_payload s b =
      elim (decode_kv x s.shard_manager b.blob_index b.encoded_blob b.blob_commit b.miner_address
        b.encode_type) [ ok o ↦ ok o | err _ ↦ ok none | panic ↦ panic ]

  unfoldable pub check_blob_commit : List ℕ → BlobPayload → Outcome Bool
  check_blob_commit decoded b = elim (get_root decoded) [
    | ok root ↦
        ok
          (bytes_equal (take hash_size_in_contract root) (take hash_size_in_contract b.blob_commit))
    | err _ ↦ ok false
    | panic ↦ panic
  ]

  -- The decoded blob of a payload, if it is sound.
  unfoldable pub sound_blob : StorageManager → BlobPayload → Outcome (Option (List ℕ))
  sound_blob s b = do
    o ← decode_payload s b
    elim o [
      | none ↦ ok none
      | some decoded ↦
          check_blob_commit decoded b >>= (λ good. ok (if good then some decoded else none))
    ]

  unfoldable pub accept_all : StorageManager → List BlobPayload → Outcome Accepted
  accept_all s [] = ok (record { indices = []; decoded = []; commits = [] })
  accept_all s (b ∷ bs) =
      let rest = accept_all s bs in
      do o ← sound_blob s b; a ← rest; ok (elim o [ none ↦ a | some decoded ↦ accept b decoded a ])

  -- onResult: the indices that were inserted.
  unfoldable pub on_result : List BlobPayload → Exec StorageManager (List ℕ)
  on_result blobs s =
      then_do (accept_all s blobs, s) (λ a t. commit_blobs x a.indices a.decoded a.commits t)

  -- After onResult: without an inserted blob the peer is stateless for the task.
  unfoldable pub after_range : BlobsByRangeRequest → Bool → SubTask → List ℕ → Task → Outcome Task
  after_range req known st inserted t = elim (sort inserted) [
    | [] ↦ ok (mark_stateless known req.peer t)
    | y ∷ ys ↦ settle_range req.sub_idx st y ys t
  ]

  -- OnBlobsByRange for the answer `blobs`, where `known` tells that the peer is still registered
  -- and `st` is the sub task of the request. An error of onResult leaves the task as it is.
  unfoldable pub on_blobs_by_range :
      BlobsByRangeRequest
      → Bool
      → SubTask
      → List BlobPayload
      → Task
      → StorageManager
      → Outcome Task × StorageManager
  on_blobs_by_range req known st blobs t s = elim (blobs_in_range req.origin req.limit blobs) [
    | [] ↦ (ok (mark_stateless known req.peer t), s)
    | b ∷ bs ↦
        let (r, s') = on_result (b ∷ bs) s in
        (
          elim r [
            | ok inserted ↦ after_range req known st inserted t
            | err _ ↦ ok t
            | panic ↦ panic
          ],
          s',
        )
  ]

  unfoldable pub after_list : ℕ → Bool → List ℕ → Task → Task
  after_list peer known inserted t = elim inserted [
    | [] ↦ settle_list [] (mark_stateless known peer t)
    | y ∷ ys ↦ settle_list (y ∷ ys) t
  ]

  -- OnBlobsByList: the blobs of the shard are taken, whatever was asked for.
  unfoldable pub on_blobs_by_list :
      ℕ → ℕ → Bool → List BlobPayload → Task → StorageManager → Outcome Task × StorageManager
  on_blobs_by_list kv_entries peer known blobs t s =
      elim (blobs_in_range (kv_entries *64 t.shard_id) (kv_entries *64 (t.shard_id +64 1) -64 1)
        blobs) [
          | [] ↦ (ok (mark_stateless known peer t), s)
          | b ∷ bs ↦
              let (r, s') = on_result (b ∷ bs) s in
              (
                elim r [
                  | ok inserted ↦ ok (after_list peer known inserted t)
                  | err _ ↦ ok t
                  | panic ↦ panic
                ],
                s',
              )
        ]

  -- FillFileWithEmptyBlob: the next index to fill, which beside an error is the clamped start.
  unfoldable pub fill_file_with_empty_blob : ℕ → ℕ → Exec StorageManager ℕ
  fill_file_with_empty_blob start limit s =
      if ltb limit s.kv_entry_count
      then (ok (limit +64 1), s)
      else then_do
          (commit_empty_blobs x (if ltb start s.kv_entry_count then s.kv_entry_count else start)
            limit s)
          (λ r t. (ok (r.1), t))
