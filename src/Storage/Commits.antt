-- ===== src/Storage/Commits.antt =====
-- ethstorage/storage_manager.go: committing blobs that came over p2p, and checks against L1.
use es_node.Prelude.{
  ℕ, zero, suc, ◌+◌, ◌-◌, Bool, true, false, not, List, [], ◌∷◌, Option, none, some, length, take,
  drop, pad_to, replicate, ◌==◌, if◌then◌else◌, bytes_equal, ◌||◌,
}
use es_node.Prelude.Int.{ℤ, negsuc}
use es_node.Outcome.{
  Error, Outcome, ok, err, panic, ◌>>=◌, Exec, then_do, invalid_params_lens, blob_encode_failed,
  commit_mismatch, commit_length, meta_query_failed, no_meta_found, local_meta_read_failed,
  local_meta_not_found, kv_not_exist,
}
use es_node.Externals.{Externals}
use es_node.Commit.{compare_commits, prepare_commit}
use es_node.ChunkCode.{hash_size_in_contract}
use es_node.Manager.{ShardManager}
use es_node.Manager.Access.{try_encode_kv, try_write, try_read_meta}
use es_node.Storage.{StorageManager, L1Source, local_kv_metas, commit_encoded_blob, or_error}

-- Running a method of the shard manager inside the storage manager.
abbrev pub on_manager : {A : Type 0} → Exec ShardManager A → Exec StorageManager A
on_manager op s = let (r, sm) = op s.shard_manager in (r, record s { shard_manager = sm })

-- One element, as CommitBlob asks for it.
abbrev only : List (List ℕ) → Outcome (List ℕ)
only (m ∷ []) = ok m
only _ = err invalid_params_lens

-- What was encoded for a batch; a blob that could not be encoded is skipped later.
abbrev encoded_or_skip : Outcome (Option (List ℕ)) → Outcome (Option (List ℕ))
encoded_or_skip (ok o) = ok o
encoded_or_skip (err _) = ok none
encoded_or_skip panic = panic

-- The errors that are a CommitMismatchError.
unfoldable pub is_mismatch : Error → Bool
is_mismatch commit_mismatch = true
is_mismatch commit_length = true
is_mismatch _ = false

module _ (x : Externals) where
  unfoldable pub commit_blob : ℕ → List ℕ → List ℕ → Exec StorageManager (Unit {0})
  commit_blob kv_index blob commit s =
      then_do
        (or_error blob_encode_failed (try_encode_kv x s.shard_manager kv_index blob commit), s)
        λ encoded t.
          then_do (local_kv_metas t (kv_index ∷ []) >>= only, t)
            λ contract u. on_manager (commit_encoded_blob kv_index encoded commit contract) u

  unfoldable pub encode_all :
      ShardManager → List ℕ → List (List ℕ) → List (List ℕ) → Outcome (List (Option (List ℕ)))
  encode_all sm (kv ∷ kvs) (b ∷ bs) (c ∷ cs) = do
    e ← encoded_or_skip (try_encode_kv x sm kv b c)
    es ← encode_all sm kvs bs cs
    ok (e ∷ es)
  encode_all sm _ _ _ = ok []

-- The loop of CommitBlobs: an entry that fails is left out of the result.
unfoldable pub commit_each :
    List ℕ → List (Option (List ℕ)) → List (List ℕ) → List (List ℕ) → Exec ShardManager (List ℕ)
commit_each (kv ∷ kvs) (some e ∷ es) (c ∷ cs) (m ∷ ms) sm =
    let (r, sm') = commit_encoded_blob kv e c m sm in
    let (inserted, sm'') = commit_each kvs es cs ms sm' in
    elim r [
      | ok _ ↦ (inserted >>= λ l. ok (kv ∷ l), sm'')
      | err _ ↦ (inserted, sm'')
      | panic ↦ (panic, sm')
    ]
commit_each (kv ∷ kvs) (none ∷ es) (c ∷ cs) (m ∷ ms) sm = commit_each kvs es cs ms sm
commit_each _ _ _ _ sm = (ok [], sm)

-- The batch has one blob and one commit for each index.
unfoldable pub lens_differ : List ℕ → List (List ℕ) → List (List ℕ) → Bool
lens_differ kv_indices blobs commits =
    not (length kv_indices == length blobs) || not (length blobs == length commits)

module _ (x : Externals) where
  unfoldable pub commit_blobs :
      List ℕ → List (List ℕ) → List (List ℕ) → Exec StorageManager (List ℕ)
  commit_blobs kv_indices blobs commits s =
      if lens_differ kv_indices blobs commits
      then (err invalid_params_lens, s)
      else then_do (encode_all x s.shard_manager kv_indices blobs commits, s)
          λ encoded t.
            then_do (local_kv_metas t kv_indices, t)
              λ metas u. on_manager (commit_each kv_indices encoded commits metas) u

  -- The encoded empty blobs of start, start + 1, ..., up to the first that cannot be encoded.
  unfoldable pub encode_empty : ShardManager → ℕ → ℕ → Outcome (List (ℕ × List ℕ))
  encode_empty sm i zero = ok []
  encode_empty sm i (suc n) =
      let rest = encode_empty sm (i + 1) n in
      elim (try_encode_kv x sm i [] (replicate 32 0)) [
        | ok (some e) ↦ rest >>= λ l. ok ((i, e) ∷ l)
        | ok none ↦ ok []
        | err _ ↦ ok []
        | panic ↦ panic
      ]

-- The loop of CommitEmptyBlobs, with `inserted` and `next`: a mismatch is passed over, any other
-- error ends it.
unfoldable pub commit_empties :
    List (ℕ × List ℕ) → List (List ℕ) → ℕ → ℕ → Exec ShardManager (ℕ × ℕ)
commit_empties ((i, e) ∷ es) (m ∷ ms) inserted next sm =
    let (r, sm') = commit_encoded_blob i e (replicate 32 0) m sm in
    elim r [
      | ok _ ↦ commit_empties es ms (inserted + 1) (next + 1) sm'
      | err c ↦
          let rest = commit_empties es ms inserted (next + 1) sm' in
          if is_mismatch c then rest else (ok (inserted, next), sm')
      | panic ↦ (panic, sm')
    ]
commit_empties ((i, e) ∷ es) [] inserted next sm = (panic, sm)
commit_empties [] ms inserted next sm = (ok (inserted, next), sm)

abbrev indices_of : List (ℕ × List ℕ) → List ℕ
indices_of [] = []
indices_of ((i, _) ∷ l) = i ∷ indices_of l

module _ (x : Externals) where
  -- Beside an error of getKvMetas the result is (0, start).
  unfoldable pub commit_empty_blobs : ℕ → ℕ → Exec StorageManager (ℕ × ℕ)
  commit_empty_blobs start limit s =
      then_do (encode_empty x s.shard_manager start (suc limit - start), s)
        λ encoded t.
          then_do (local_kv_metas t (indices_of encoded), t)
            λ metas u. on_manager (commit_empties encoded metas 0 start) u

-- rpc.FinalizedBlockNumber is -3.
abbrev finalized : ℤ
finalized = negsuc 2

abbrev first_meta : List (List ℕ) → Outcome (List ℕ)
first_meta [] = err no_meta_found
first_meta (m ∷ _) = ok m

abbrev local_meta : Outcome (Option (List ℕ)) → Outcome (List ℕ)
local_meta (ok (some m)) = ok m
local_meta (ok none) = err local_meta_not_found
local_meta (err _) = err local_meta_read_failed
local_meta panic = panic

abbrev queried : Outcome (List (List ℕ)) → Outcome (List (List ℕ))
queried (err _) = err meta_query_failed
queried r = r

-- The commit in the contract, if it was found, beside the verdict.
unfoldable pub check_meta : L1Source → StorageManager → ℕ → Option (List ℕ) × Outcome (Unit {0})
check_meta l1 s kv_idx = elim (queried (l1.get_kv_metas (kv_idx ∷ []) finalized) >>= first_meta) [
  | err e ↦ (none, err e)
  | panic ↦ (none, panic)
  | ok m ↦
      let commit = pad_to 32 (take hash_size_in_contract (drop 8 m)) in
      elim (local_meta (try_read_meta s.shard_manager kv_idx)) [
        | ok found ↦ (some commit, compare_commits commit found)
        | err e ↦ (none, err e)
        | panic ↦ (none, panic)
      ]
]

-- The commit that is fetched: the one in the contract, unless it is unknown or zero.
abbrev chosen_commit : Option (List ℕ) → List ℕ → List ℕ
chosen_commit none commit = commit
chosen_commit (some c) commit = if bytes_equal c (replicate 32 0) then commit else c

-- The error of the check is dropped; a panic is not.
abbrev if_no_panic : Outcome (Unit {0}) → Outcome (List ℕ) → Outcome (List ℕ)
if_no_panic panic r = panic
if_no_panic _ r = r

abbrev written_flag : Outcome Bool → Outcome (Unit {0})
written_flag (ok true) = ok tt
written_flag (ok false) = err kv_not_exist
written_flag (err e) = err e
written_flag panic = panic

module _ (x : Externals) (l1 : L1Source) (fetch_blob : ℕ → List ℕ → Outcome (List ℕ)) where
  unfoldable pub try_write_with_meta_check : ℕ → List ℕ → Exec StorageManager (Unit {0})
  try_write_with_meta_check kv_idx commit s =
      let (found, verdict) = check_meta l1 s kv_idx in
      let c = chosen_commit found commit in
      then_do (if_no_panic verdict (fetch_blob kv_idx c), s)
        λ blob t.
          let (r, t') = on_manager (try_write x kv_idx blob (prepare_commit c)) t in
          (written_flag r, t')
