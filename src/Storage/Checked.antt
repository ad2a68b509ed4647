-- ===== src/Storage/Checked.antt =====
-- ethstorage/storage_manager.go: what a successful commit of a blob has checked, and what the
-- loop of CommitEmptyBlobs counts.
use es_node.Prelude.{
  ℕ, suc, ◌+◌, ◌≤◌, ◌≡◌, refl, Bool, not, List, [], ◌∷◌, length, take, drop, replicate, ◌==◌, arith,
  Bool-cases, inl, inr,
}
use es_node.Outcome.{
  Outcome, ok, err, panic, >>=-eq-ok, refuse_if, refuse_if-eq-ok, meta_read_failed,
  kv_idx_not_matched,
}
use es_node.BigEndian.{be_value}
use es_node.Commit.{compare_commits, compare_commits_iff}
use es_node.Manager.{ShardManager}
use es_node.Manager.Access.{try_read_meta}
use es_node.Storage.{commit_wanted, commit_encoded_blob, or_error}
use es_node.Storage.Commits.{commit_empties, is_mismatch}

-- The metadata of the contract is that of the entry and has the blob's commit.
pub record Matches (kv_index : ℕ) (commit contract : List ℕ) : Type 0 where
  pub commits_long : 24 ≤ length commit
  pub same_commit : take 24 (take 24 (drop 8 contract)) ≡ take 24 commit
  pub same_index : be_value (take 5 contract) ≡ kv_index

commit_wanted-Matches :
    (sm : ShardManager) (kv_index : ℕ) (commit contract : List ℕ) {wanted : Bool}
    → commit_wanted sm kv_index commit contract ≡ ok wanted
    → Matches kv_index commit contract
unfolding commit_wanted
commit_wanted-Matches sm kv_index commit contract h =
    let (u, compared, h1) = >>=-eq-ok (compare_commits (take 24 (drop 8 contract)) commit) _ h in
    let (m, read, h2) = >>=-eq-ok (or_error meta_read_failed (try_read_meta sm kv_index)) _ h1 in
    let (u', matched, h3) =
      >>=-eq-ok (refuse_if (not (be_value (take 5 contract) == kv_index)) kv_idx_not_matched) _
        h2 in
    let c = (compare_commits_iff (take 24 (drop 8 contract)) commit).0 compared in
    record {
      commits_long = c.1;
      same_commit = c.2;
      same_index = ground (
        arith,
        refuse_if-eq-ok (not (be_value (take 5 contract) == kv_index)) kv_idx_not_matched matched,
      );
    }

-- If a blob is committed, the metadata of the contract is for its index and has its commit on 24
-- bytes.
pub commit_encoded_blob-Matches :
    (kv_index : ℕ) (encoded commit contract : List ℕ) (sm : ShardManager)
    → (commit_encoded_blob kv_index encoded commit contract sm).0 ≡ ok tt
    → Matches kv_index commit contract
unfolding commit_encoded_blob
commit_encoded_blob-Matches kv_index encoded commit contract sm h =
    committed (commit_wanted sm kv_index commit contract) refl h
  where
    committed :
        (r : Outcome Bool)
        → commit_wanted sm kv_index commit contract ≡ r
        → (commit_encoded_blob kv_index encoded commit contract sm).0 ≡ ok tt
        → Matches kv_index commit contract
    committed (ok w) e q = commit_wanted-Matches sm kv_index commit contract e
    committed (err c) e q = absurd (ground (arith, rw e at q))
    committed panic e q = absurd (ground (arith, rw e at q))

-- The counts that the loop ends with.
abbrev pub InRange : ℕ → ℕ → ℕ → Outcome (ℕ × ℕ) → Type 0
InRange n inserted next (ok (i, k)) =
    (inserted ≤ i) × (next ≤ k) × (k ≤ next + n) × (i + next ≤ inserted + k)
InRange n inserted next (err e) = ⊥
InRange n inserted next panic = Unit

InRange-committed :
    (n inserted next : ℕ) (r : Outcome (ℕ × ℕ))
    → InRange n (inserted + 1) (next + 1) r
    → InRange (suc n) inserted next r
InRange-committed n inserted next (ok (i, k)) h =
    (omega (arith, h), omega (arith, h), omega (arith, h), omega (arith, h))
InRange-committed n inserted next (err e) h = elim h [ ]
InRange-committed n inserted next panic h = tt

InRange-passed :
    (n inserted next : ℕ) (r : Outcome (ℕ × ℕ))
    → InRange n inserted (next + 1) r
    → InRange (suc n) inserted next r
InRange-passed n inserted next (ok (i, k)) h =
    (omega (arith, h), omega (arith, h), omega (arith, h), omega (arith, h))
InRange-passed n inserted next (err e) h = elim h [ ]
InRange-passed n inserted next panic h = tt

module _ (i : ℕ) (e : List ℕ) (es : List (ℕ × List ℕ)) (m : List ℕ) (ms : List (List ℕ))
    (inserted next : ℕ) (sm : ShardManager)
    (onward : (k n : ℕ) (s : ShardManager)
      → InRange (length es) k n (commit_empties es ms k n s).0) where
  after : ShardManager
  after = (commit_encoded_blob i e (replicate 32 0) m sm).1

  InRange-step :
      (r : Outcome (Unit {0}))
      → (commit_encoded_blob i e (replicate 32 0) m sm).0 ≡ r
      → InRange
          (suc (length es))
          inserted
          next
          (commit_empties ((i, e) ∷ es) (m ∷ ms) inserted next sm).0
  unfolding commit_empties after
  InRange-step (ok u) q =
      rw (commit_empties, q)
        (InRange-committed (length es) inserted next _ (onward (inserted + 1) (next + 1) after))
  InRange-step (err c) q = elim (Bool-cases (is_mismatch c)) [
    | inl skip ↦
        rw (commit_empties, q, skip)
          (InRange-passed (length es) inserted next _ (onward inserted (next + 1) after))
    | inr stop ↦ rw (commit_empties, q, stop) (omega arith, omega arith, omega arith, omega arith)
  ]
  InRange-step panic q = rw (commit_empties, q) tt

-- The loop of CommitEmptyBlobs never returns an error; the next index to insert lies between the
-- first index and the one behind the last, and no more entries are inserted than indices passed.
pub commit_empties-InRange :
    (es : List (ℕ × List ℕ)) (ms : List (List ℕ)) (inserted next : ℕ) (sm : ShardManager)
    → InRange (length es) inserted next (commit_empties es ms inserted next sm).0
unfolding commit_empties
commit_empties-InRange [] ms inserted next sm = (omega arith, omega arith, omega arith, omega arith)
commit_empties-InRange ((i, e) ∷ es) [] inserted next sm = tt
commit_empties-InRange ((i, e) ∷ es) (m ∷ ms) inserted next sm =
    InRange-step i e es m ms inserted next sm (λ k n s. commit_empties-InRange es ms k n s)
      (commit_encoded_blob i e (replicate 32 0) m sm).0 refl
