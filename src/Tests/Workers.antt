-- ===== src/Tests/Workers.antt =====
-- The mining worker.
use es_node.Prelude.{ℕ, ◌≡◌, refl, List, [], ◌∷◌, some, length, true, false, replicate, arith}
use es_node.Outcome.{Outcome, ok}
use es_node.Worker.{Config, L1Block, TaskItem, Tick, assign_tasks, mine_task}
use es_node.Worker.Nonces.{Tiles, assign_tasks-Tiles}
use es_node.Worker.Search.{mine_task-first_valid, first_valid, mined}
use es_node.Tests.World.{world}

abbrev config : Config
config = record {
  nonce_limit = 10;
  threads_per_shard = 3;
  cutoff = 12;
  diff_adj_divisor = 1024;
  minimum_diff = 1;
}

abbrev block : L1Block
block = record { number = 9; time = 100; mix_digest = replicate 32 3 }

abbrev item : TaskItem
item = record {
  miner = replicate 20 5;
  shard_idx = 0;
  required_diff = 100;
  block_number = 8;
  mix_hash = replicate 32 3;
  nonce_start = 6;
  nonce_end = 8;
  mine_time = 90;
  thread = 2;
}

-- One of the channels still has an item of the block before.
assign_tasks-Tiles_example :
    (out : List (List TaskItem)) × (assign_tasks config
        (replicate 20 5)
        0
        block
        7
        (λ i. false)
        ([] ∷ [] ∷ (item ∷ []) ∷ [])
      ≡ ok out)
    × Tiles 0 out 10
assign_tasks-Tiles_example =
    assign_tasks-Tiles config (replicate 20 5) 0 block 7 (omega arith) (omega arith) (omega arith)
      (λ i. false) (λ i h. refl) ([] ∷ [] ∷ (item ∷ []) ∷ []) refl
      (omega arith, (omega arith, (omega arith, tt)))

abbrev hash_at : List ℕ → Outcome (List ℕ × List ℕ)
hash_at hash = ok (50 ∷ [], 1 ∷ 2 ∷ [])

abbrev prove_it : ℕ → List ℕ → Outcome ℕ
prove_it nonce samples = ok (length samples)

abbrev ticks : List Tick
ticks = replicate 3 (record { running = true; slot_over = false })

mine_task-first_valid_example :
    mine_task world hash_at prove_it item ticks
    ≡ some (
        mined world hash_at prove_it item
          (first_valid world hash_at prove_it item (λ nonce. ((50 ∷ [], 1 ∷ 2 ∷ []), refl)) 2 6))
mine_task-first_valid_example =
    mine_task-first_valid world hash_at prove_it item (λ nonce. ((50 ∷ [], 1 ∷ 2 ∷ []), refl))
      (omega arith) ticks (omega arith) (omega arith) (refl, refl, (refl, refl, (refl, refl, tt)))
