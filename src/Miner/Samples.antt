-- ===== src/Miner/Samples.antt =====
-- ethstorage/miner/algorithm.go, hashimoto: which samples are read, and how they are chained.
use native.Mathlib.Nat.{mod-lt, one-le-pow}
use es_node.Prelude.{
  ℕ, zero, suc, ◌+◌, ◌*◌, ◌%◌, ◌^◌, ◌≤◌, ◌<◌, ◌≡◌, refl, ap, true, List, [], ◌∷◌, ◌++◌, length, ltb,
  arith, u64_fits, ◌+64◌, ◌-64◌, ◌<<64◌,
}
use es_node.Outcome.{Outcome, ok}
use es_node.Externals.{Externals}
use es_node.BigEndian.{be_value}
use es_node.Miner.{sample_index, hashimoto_rounds, hashimoto}

-- The samples of a shard.
abbrev pub InShard : ℕ → ℕ → ℕ → Type 0
InShard row_bits shard_idx i = (shard_idx * 2 ^ row_bits ≤ i) × (i < (shard_idx + 1) * 2 ^ row_bits)

module _ (x : Externals) (sample_reader : ℕ → ℕ → Outcome (List ℕ)) (row_bits shard_idx : ℕ) where
  -- Each index is the one in the shard that the hash before it chooses, and the hash after it is
  -- that of the hash before it and the sample.
  abbrev pub Chain : List ℕ → List ℕ → List ℕ → Type 0
  Chain hash [] result = hash ≡ result
  Chain hash (i ∷ is) result =
      (i ≡ be_value hash % 2 ^ row_bits + shard_idx * 2 ^ row_bits)
      × InShard row_bits shard_idx i
      × ((sample : List ℕ) × (sample_reader shard_idx i ≡ ok sample)
          × Chain (x.keccak (hash ++ sample)) is result)

  module _ (few : row_bits < 64) (fits : (shard_idx + 1) * 2 ^ row_bits ≤ 2 ^ 64)
      (readable : (i : ℕ)
        → InShard row_bits shard_idx i
        → (sample : List ℕ) × (sample_reader shard_idx i ≡ ok sample)) where
    sample_index-ok :
        (hash : List ℕ)
        → sample_index row_bits shard_idx hash
          ≡ ok (be_value hash % 2 ^ row_bits + shard_idx * 2 ^ row_bits)
    unfolding sample_index
    sample_index-ok hash =
        let test : ltb row_bits 64 ≡ true = ground arith in
        let within = mod-lt (be_value hash) (one-le-pow row_bits 2 (omega arith)) in
        let start : shard_idx <<64 row_bits ≡ shard_idx * 2 ^ row_bits =
          u64_fits (shard_idx * 2 ^ row_bits) (omega arith) in
        rw (test, start)
          (ap ok (
            u64_fits (be_value hash % 2 ^ row_bits + shard_idx * 2 ^ row_bits)
              (omega (arith, within))))

    hashimoto_rounds-Chain :
        (n : ℕ) (hash : List ℕ)
        → (r : List ℕ × List ℕ) × (hashimoto_rounds x sample_reader row_bits shard_idx n hash
            ≡ ok r)
          × (length r.1 ≡ n)
          × Chain hash r.1 r.0
    unfolding hashimoto_rounds
    hashimoto_rounds-Chain zero hash = ((hash, []), refl, refl, refl)
    hashimoto_rounds-Chain (suc n) hash =
        let i = be_value hash % 2 ^ row_bits + shard_idx * 2 ^ row_bits in
        let within : be_value hash % 2 ^ row_bits < 2 ^ row_bits =
          mod-lt (be_value hash) (one-le-pow row_bits 2 (omega arith)) in
        let inside : InShard row_bits shard_idx i = (omega arith, omega (arith, within)) in
        let (sample, read) = readable i inside in
        let ((h, is), e, counted, chain) = hashimoto_rounds-Chain n (x.keccak (hash ++ sample)) in
        (
          (h, i ∷ is),
          rw (hashimoto_rounds, sample_index-ok hash, read, e) refl,
          omega arith,
          (refl, inside, (sample, read, chain)),
        )

-- In a shard of fewer than 2^64 samples, whose indices fit a `uint64` and all of whose samples can
-- be read, hashimoto returns as many indices as checks, each that of a sample of the shard, chosen
-- by the hash before it, and the hash that the samples lead to.
pub hashimoto-Chain :
    (x : Externals) (sample_reader : ℕ → ℕ → Outcome (List ℕ))
    (kv_entries_bits kv_size_bits sample_size_bits shard_idx row_bits : ℕ)
    → kv_entries_bits + kv_size_bits ≡ row_bits + sample_size_bits
    → kv_entries_bits + kv_size_bits < 2 ^ 64
    → row_bits < 64
    → (shard_idx + 1) * 2 ^ row_bits ≤ 2 ^ 64
    → ((i : ℕ)
        → InShard row_bits shard_idx i
        → (sample : List ℕ) × (sample_reader shard_idx i ≡ ok sample))
    → (random_checks : ℕ) (hash : List ℕ)
    → (r : List ℕ × List ℕ) × (hashimoto x kv_entries_bits kv_size_bits sample_size_bits shard_idx
          random_checks sample_reader hash
        ≡ ok r)
      × (length r.1 ≡ random_checks)
      × Chain x sample_reader row_bits shard_idx hash r.1 r.0
unfolding hashimoto
hashimoto-Chain x sample_reader kv_entries_bits kv_size_bits sample_size_bits shard_idx row_bits sum
      small few fits readable random_checks hash =
    let row : kv_entries_bits +64 kv_size_bits -64 sample_size_bits ≡ row_bits = omega arith in
    rw row (
      hashimoto_rounds-Chain x sample_reader row_bits shard_idx few fits readable random_checks
        hash)
