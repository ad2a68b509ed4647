-- ===== src/Miner/Difficulty.antt =====
-- ethstorage/miner/algorithm.go, expectedDiff: the difficulty after an interval.
use native.Mathlib.Nat.{mul-le-mul_right}
use es_node.Prelude.{
  ℕ, ◌+◌, ◌-◌, ◌*◌, ◌/◌, ◌≤◌, ◌<◌, ◌≡◌, ltb, ◌==◌, if◌then◌else◌, u64, false, arith,
}
use es_node.Prelude.Quotients.{quotient_le}
use es_node.Outcome.{ok}
use es_node.Miner.{expected_diff}

module _ (difficulty cutoff diff_adj_divisor min_diff : ℕ) (some_cutoff : 0 < u64 cutoff)
    (some_divisor : 0 < diff_adj_divisor) where
  -- The difficulty by the number of cutoffs in the interval.
  unfoldable diff_at : ℕ → ℕ
  diff_at x =
      let more = difficulty + difficulty / diff_adj_divisor in
      let adjust = (x - 1) * difficulty / diff_adj_divisor in
      if x == 0
      then if ltb more min_diff then min_diff else more
      else if ltb difficulty (adjust + min_diff)
      then min_diff
      else difficulty - adjust

  expected_diff-at :
      (interval : ℕ)
      → expected_diff interval difficulty cutoff diff_adj_divisor min_diff
        ≡ ok (diff_at (interval / u64 cutoff))
  unfolding expected_diff diff_at
  expected_diff-at interval =
      let a : (u64 cutoff == 0) ≡ false = ground arith in
      let b : (diff_adj_divisor == 0) ≡ false = ground arith in
      rw (expected_diff, a, b) (ground arith)

  diff_at-antitone : (x y : ℕ) → x ≤ y → diff_at y ≤ diff_at x
  unfolding diff_at
  diff_at-antitone x y le =
      let product : (x - 1) * difficulty ≤ (y - 1) * difficulty =
        mul-le-mul_right difficulty (omega arith) in
      let adjusts : (x - 1) * difficulty / diff_adj_divisor
          ≤ (y - 1) * difficulty / diff_adj_divisor =
        quotient_le diff_adj_divisor ((x - 1) * difficulty) ((y - 1) * difficulty) some_divisor
          product in
      ground arith

  diff_at-least : (x : ℕ) → min_diff ≤ diff_at x
  unfolding diff_at
  diff_at-least x = ground arith

  -- With a cutoff and a divisor that are not zero, expectedDiff returns difficulties of at least
  -- minDiff, and after a longer interval none that is higher.
  pub expected_diff-antitone :
      (interval longer : ℕ)
      → interval ≤ longer
      → (d : ℕ) × (d' : ℕ) × (expected_diff interval difficulty cutoff diff_adj_divisor min_diff
          ≡ ok d)
        × (expected_diff longer difficulty cutoff diff_adj_divisor min_diff ≡ ok d')
        × (min_diff ≤ d')
        × (d' ≤ d)
  expected_diff-antitone interval longer le = (
    diff_at (interval / u64 cutoff),
    diff_at (longer / u64 cutoff),
    expected_diff-at interval,
    expected_diff-at longer,
    diff_at-least (longer / u64 cutoff),
    diff_at-antitone (interval / u64 cutoff) (longer / u64 cutoff)
        (quotient_le (u64 cutoff) interval longer some_cutoff le),
  )
