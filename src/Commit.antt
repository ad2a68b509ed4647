-- ===== src/Commit.antt =====
-- Commits: ethstorage/storage_manager.go (CompareCommits, PrepareCommit) and
-- ethstorage/data_shard.go (checkCommit).
use es_node.Prelude.{
  ℕ, ◌≤◌, ◌≡◌, ◌↔◌, length-append, length-pad_to, sym, ◌∙◌, Bool, true, false, List, [], ◌∷◌, ◌++◌,
  length, take, take_append, take_all, take-pad_to, pad_to, replicate, ltb, ◌==◌, if◌then◌else◌,
  bit_or, bytes_equal, bytes_equal_eq, bytes_equal_refl, arith,
}
use es_node.Outcome.{
  Outcome, ok, err, ◌>>=◌, commit_length, commit_mismatch, empty_commit_blob_not_empty,
}
use es_node.Externals.{Externals}
use es_node.ChunkCode.{hash_size_in_contract}

-- CommitMismatchError covers both a wrong length and a difference.
unfoldable pub compare_commits : List ℕ → List ℕ → Outcome (Unit {0})
compare_commits expected found =
    if ltb (length expected) hash_size_in_contract
    then err commit_length
    else if ltb (length found) hash_size_in_contract
    then err commit_length
    else if bytes_equal (take hash_size_in_contract expected) (take hash_size_in_contract found)
    then ok tt
    else err commit_mismatch

abbrev pub blob_filling_mask : ℕ
blob_filling_mask = 128

-- Byte 24 carries the filling bit; the bytes behind it are zero.
unfoldable pub prepare_commit : List ℕ → List ℕ
prepare_commit commit =
    pad_to hash_size_in_contract commit ++ bit_or 0 blob_filling_mask ∷ replicate 7 0

unfoldable pub all_zero : List ℕ → Bool
all_zero [] = true
all_zero (b ∷ bs) = if b == 0 then all_zero bs else false

-- `copy` into a kzg4844.Blob
unfoldable pub kzg_blob : List ℕ → List ℕ
kzg_blob bs = pad_to 131072 bs

module _ (x : Externals) where
  unfoldable pub check_commit : List ℕ → List ℕ → Outcome (Unit {0})
  check_commit commit blob =
      if bytes_equal (take hash_size_in_contract commit) (replicate hash_size_in_contract 0)
      then (if all_zero blob then ok tt else err empty_commit_blob_not_empty)
      else (do
        commitment ← x.blob_to_commitment (kzg_blob blob)
        compare_commits commit (x.kzg_to_versioned_hash commitment))

-- Two commits compare equal exactly if both have 24 bytes and agree on the first 24.
pub compare_commits_iff :
    (a b : List ℕ)
    → (compare_commits a b ≡ ok tt) ↔ ((24 ≤ length a) × (24 ≤ length b) × (take 24 a ≡ take 24 b))
unfolding compare_commits
compare_commits_iff a b = (
  (λ h. ground (arith, bytes_equal_eq (take 24 a) (take 24 b))),
  (λ h. rw (h.2, bytes_equal_refl (take 24 b)) (ground (arith, h.0, h.1))),
)

pub length-prepare_commit : (c : List ℕ) → length (prepare_commit c) ≡ 32
unfolding prepare_commit
length-prepare_commit c =
    omega (
      arith,
      length-append (pad_to 24 c) (128 ∷ 0 ∷ 0 ∷ 0 ∷ 0 ∷ 0 ∷ 0 ∷ 0 ∷ []),
      length-pad_to 24 c,
    )

-- The 24 bytes of a commit survive its preparation.
pub take-prepare_commit : (c : List ℕ) → 24 ≤ length c → take 24 (prepare_commit c) ≡ take 24 c
unfolding prepare_commit
take-prepare_commit c h =
    take_append 24 (pad_to 24 c) (128 ∷ 0 ∷ 0 ∷ 0 ∷ 0 ∷ 0 ∷ 0 ∷ 0 ∷ []) (sym (length-pad_to 24 c))
    ∙ sym (take_all 24 (pad_to 24 c) (omega (arith, length-pad_to 24 c)))
    ∙ take-pad_to 24 24 c h (omega arith)
