-- ===== src/Tests/Miners.antt =====
-- A proof of storage over a shard of eight samples, and difficulties.
use es_node.Prelude.{ℕ, ◌≡◌, refl, List, [], ◌∷◌, length, replicate, arith}
use es_node.Outcome.{Outcome, ok}
use es_node.Miner.{hashimoto}
use es_node.Miner.Samples.{Chain, hashimoto-Chain}
use es_node.Tests.World.{world}

abbrev reader : ℕ → ℕ → Outcome (List ℕ)
reader shard_idx sample_idx = ok (sample_idx ∷ [])

hashimoto-Chain_example :
    (r : List ℕ × List ℕ) × (hashimoto world 1 7 5 2 4 reader (replicate 32 9) ≡ ok r)
    × (length r.1 ≡ 4)
    × Chain world reader 3 2 (replicate 32 9) r.1 r.0
hashimoto-Chain_example =
    hashimoto-Chain world reader 1 7 5 2 3 refl (omega arith) (omega arith) (omega arith)
      (λ i inside. (i ∷ [], refl)) 4 (replicate 32 9)
