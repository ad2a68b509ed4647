-- ===== src/Miner.antt =====
-- ethstorage/miner/algorithm.go: the random samples of a proof of storage, and the difficulty. The
-- difficulties, which are big integers, are not negative.
pub mod Samples
pub mod Difficulty
use es_node.Prelude.{
  ℕ, zero, suc, ◌+◌, ◌-◌, ◌*◌, ◌/◌, ◌%◌, ◌^◌, List, [], ◌∷◌, ◌++◌, ltb, ◌==◌, if◌then◌else◌, u64,
  ◌+64◌, ◌-64◌, ◌<<64◌,
}
use es_node.Outcome.{Outcome, ok, panic, ◌>>=◌}
use es_node.Externals.{Externals}
use es_node.BigEndian.{be_value, be_bytes}

-- The index of the sample that a hash chooses. As an int64, 1 << 63 is -2^63, whose remainders are
-- those of 2^63, and 1 << 64 is 0.
unfoldable pub sample_index : ℕ → ℕ → List ℕ → Outcome ℕ
sample_index row_bits shard_idx hash =
    if ltb row_bits 64 then ok (be_value hash % 2 ^ row_bits +64 shard_idx <<64 row_bits) else panic

module _ (x : Externals) (sample_reader : ℕ → ℕ → Outcome (List ℕ)) (row_bits shard_idx : ℕ) where
  -- The loop of hashimoto with `n` rounds left.
  unfoldable pub hashimoto_rounds : ℕ → List ℕ → Outcome (List ℕ × List ℕ)
  hashimoto_rounds zero hash = ok (hash, [])
  hashimoto_rounds (suc n) hash = sample_index row_bits shard_idx hash >>= λ sample_idx.
      sample_reader shard_idx sample_idx >>= λ sample.
      hashimoto_rounds n (x.keccak (hash ++ sample)) >>= λ r. ok (r.0, sample_idx ∷ r.1)

unfoldable pub hashimoto :
    Externals → ℕ → ℕ → ℕ → ℕ → ℕ → (ℕ → ℕ → Outcome (List ℕ)) → List ℕ → Outcome (List ℕ × List ℕ)
hashimoto x kv_entries_bits kv_size_bits sample_size_bits shard_idx random_checks sample_reader
      hash =
    hashimoto_rounds x sample_reader (kv_entries_bits +64 kv_size_bits -64 sample_size_bits)
      shard_idx random_checks hash

unfoldable pub init_hash : Externals → List ℕ → List ℕ → ℕ → List ℕ
init_hash x miner mixed_hash nonce =
    x.keccak (x.bytes_to_hash miner ++ (mixed_hash ++ be_bytes 32 nonce))

unfoldable pub expected_diff : ℕ → ℕ → ℕ → ℕ → ℕ → Outcome ℕ
expected_diff interval difficulty cutoff diff_adj_divisor min_diff =
    let x = interval / u64 cutoff in
    let more = difficulty + difficulty / diff_adj_divisor in
    let adjust = (x - 1) * difficulty / diff_adj_divisor in
    if u64 cutoff == 0
    then panic
    else if diff_adj_divisor == 0
    then panic
    else if x == 0
    then ok (if ltb more min_diff then min_diff else more)
    else ok (if ltb difficulty (adjust + min_diff) then min_diff else difficulty - adjust)
