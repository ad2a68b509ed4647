-- ===== src/Shard/Complete.antt =====
-- IsComplete decides whether every chunk of the shard has a file (ethstorage/data_shard.go).
use native.Mathlib.Decide.{dec_lt}
use es_node.Prelude.{
  ℕ, zero, suc, ◌-◌, ◌≤◌, ◌<◌, ◌≡◌, refl, ◌⊎◌, inl, inr, Bool, true, false, List, [], ◌∷◌, some,
  arith, Bool-cases, ltb,
}
use es_node.DataFile
use es_node.DataFile.{DataFile, chunk_idx_end}
use es_node.Shard.{
  DataShard, start_chunk_idx, end_chunk_idx, pass_files, complete_from, is_complete,
}
use es_node.Shard.Files.{has_chunk}

-- A file that holds chunk i holds the chunks from i up to its end.
contains_up_to :
    (df : DataFile) (i k : ℕ)
    → DataFile.contains df i ≡ true
    → i ≤ k
    → k < chunk_idx_end df
    → DataFile.contains df k ≡ true
unfolding DataFile.contains
contains_up_to df i k h p q = ground arith

contains-lt_end : (df : DataFile) (i : ℕ) → DataFile.contains df i ≡ true → i < chunk_idx_end df
unfolding DataFile.contains
contains-lt_end df i h = ground arith

-- One pass over the files moves on over chunks that have a file, and moves if the first has one.
pub record Passed (all : List DataFile) (i : ℕ) (found : Bool) (r : ℕ × Bool) : Type 0 where
  pub onward : i ≤ r.0
  pub held : (k : ℕ) → i ≤ k → k < r.0 → has_chunk all k ≡ true
  pub moved : r.1 ≡ true → (found ≡ true) ⊎ (i < r.0)
  pub kept : found ≡ true → r.1 ≡ true

-- `dfs` is a part of `all`.
abbrev Part : List DataFile → List DataFile → Type 0
Part all dfs = (k : ℕ) → has_chunk dfs k ≡ true → has_chunk all k ≡ true

has_chunk-head :
    (df : DataFile) (dfs : List DataFile) (k : ℕ)
    → DataFile.contains df k ≡ true
    → has_chunk (df ∷ dfs) k ≡ true
unfolding has_chunk
has_chunk-head df dfs k h = ground arith

has_chunk-tail :
    (df : DataFile) (dfs : List DataFile) (k : ℕ)
    → has_chunk dfs k ≡ true
    → has_chunk (df ∷ dfs) k ≡ true
unfolding has_chunk
has_chunk-tail df dfs k h = ground arith

-- The file at the head holds chunk i, and the pass goes on from its end.
Passed-head :
    (all : List DataFile) (df : DataFile) (dfs : List DataFile) (i : ℕ) (found : Bool)
    (r : ℕ × Bool)
    → DataFile.contains df i ≡ true
    → Part all (df ∷ dfs)
    → Passed all (chunk_idx_end df) true r
    → Passed all i found r
Passed-head all df dfs i found r c part rest =
    let far : i < chunk_idx_end df = contains-lt_end df i c in
    record {
      onward = omega (arith, rest.onward);
      held = λ k p q. elim (dec_lt k (chunk_idx_end df)) [
        | yes inside ↦ part k (has_chunk-head df dfs k (contains_up_to df i k c p inside))
        | no beyond ↦ rest.held k (omega arith) q
      ];
      moved = λ h. inr (omega (arith, rest.onward));
      kept = λ h. rest.kept refl;
    }

pass_files-Passed :
    (all dfs : List DataFile) (i : ℕ) (found : Bool)
    → Part all dfs
    → Passed all i found (pass_files dfs i found)
unfolding pass_files
pass_files-Passed all [] i found part = record {
  onward = omega arith;
  held = λ k p q. absurd (omega arith);
  moved = λ h. inl h;
  kept = λ h. h;
}
pass_files-Passed all (df ∷ dfs) i found part = elim (Bool-cases (DataFile.contains df i)) [
  | inl c ↦ rw c (
      Passed-head all df dfs i found (pass_files dfs (chunk_idx_end df) true) c part (
        pass_files-Passed all dfs (chunk_idx_end df) true
          (λ k h. part k (has_chunk-tail df dfs k h))))
  | inr c ↦ rw c (pass_files-Passed all dfs i found (λ k h. part k (has_chunk-tail df dfs k h)))
]

-- A pass that finds nothing has stayed at a chunk without a file.
pass_files-missing :
    (dfs : List DataFile) (i : ℕ) → (pass_files dfs i false).1 ≡ false → has_chunk dfs i ≡ false
unfolding pass_files has_chunk
pass_files-missing [] i h = refl
pass_files-missing (df ∷ dfs) i h = elim (Bool-cases (DataFile.contains df i)) [
  | inl c ↦
      let p = pass_files-Passed dfs dfs (chunk_idx_end df) true (λ k q. q) in
      absurd (cc (p.kept refl, rw (c, pass_files) at h))
  | inr c ↦ rw c (pass_files-missing dfs i (rw (c, pass_files) at h))
]

-- What a verdict says of the chunks from i to the limit.
abbrev pub Verdict : List DataFile → ℕ → ℕ → Bool → Type 0
Verdict dfs limit i true = (k : ℕ) → i ≤ k → k < limit → has_chunk dfs k ≡ true
Verdict dfs limit i false = (k : ℕ) × (i ≤ k) × (k < limit) × (has_chunk dfs k ≡ false)

Verdict-onward :
    (dfs : List DataFile) (limit i : ℕ) (v : Bool)
    → (r : ℕ × Bool) → Passed dfs i false r
    → Verdict dfs limit r.0 v
    → Verdict dfs limit i v
Verdict-onward dfs limit i true r p rest = λ k a b. elim (dec_lt k r.0) [
  | yes inside ↦ p.held k a inside
  | no beyond ↦ rest k (omega arith) b
]
Verdict-onward dfs limit i false r p (k, a, b, c) = (k, omega (arith, p.onward), b, c)

complete_from-Verdict :
    (fuel : ℕ) (dfs : List DataFile) (limit i : ℕ)
    → limit - i < fuel
    → (v : Bool) × (complete_from fuel dfs limit i ≡ some v) × Verdict dfs limit i v
unfolding complete_from
complete_from-Verdict zero dfs limit i h = elim h [ ]
complete_from-Verdict (suc fuel) dfs limit i h = elim (Bool-cases (ltb i limit)) [
  | inl more ↦
      let r = pass_files dfs i false in
      let p = pass_files-Passed dfs dfs i false (λ k q. q) in
      elim (Bool-cases r.1) [
        | inl found ↦
            let (v, e, w) =
              complete_from-Verdict fuel dfs limit r.0 (ground (arith, p.moved found)) in
            (v, rw (more, found) e, Verdict-onward dfs limit i v r p w)
        | inr stuck ↦ (
          false,
          rw (more, stuck),
          (i, omega arith, ground arith, pass_files-missing dfs i stuck),
        )
      ]
  | inr done ↦ (true, rw done, λ k a b. absurd (ground arith))
]

-- IsComplete always returns: true if every chunk of the shard has a file, and false if some chunk
-- of the shard has none.
pub is_complete-Verdict :
    (ds : DataShard)
    → (v : Bool) × (is_complete ds ≡ some v)
      × Verdict ds.data_files (end_chunk_idx ds) (start_chunk_idx ds) v
unfolding is_complete
is_complete-Verdict ds =
    complete_from-Verdict (suc (end_chunk_idx ds - start_chunk_idx ds)) ds.data_files
      (end_chunk_idx ds) (start_chunk_idx ds) (omega arith)
