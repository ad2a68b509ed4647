-- ===== src/Worker/Nonces.antt =====
-- The nonces of the threads (ethstorage/miner/worker.go, assignTasks).
use es_node.Prelude.{
  ℕ, zero, suc, ◌+◌, ◌-◌, ◌*◌, ◌/◌, ◌^◌, ◌≤◌, ◌<◌, ◌≡◌, refl, sym, ap, subst, ◌∙◌, true, false,
  Bool, List, [], ◌∷◌, length, ◌==◌, arith, u64_fits, ◌+64◌, ◌-64◌,
}
use es_node.Outcome.{ok}
use es_node.DataFile.Valid.{row_le}
use es_node.Worker.{Config, L1Block, TaskItem, task_item, enqueue, assign_from, assign_tasks}

-- Channels whose items are the nonces from `start` to `end`, one range after the other.
abbrev pub Tiles : ℕ → List (List TaskItem) → ℕ → Type 0
Tiles start [] end = start ≡ end
Tiles start ([] ∷ channels) end = ⊥
Tiles start ((item ∷ []) ∷ channels) end =
    (item.nonce_start ≡ start) × (start ≤ item.nonce_end) × Tiles item.nonce_end channels end
Tiles start ((item ∷ other ∷ queue) ∷ channels) end = ⊥

-- At most one item in each channel.
abbrev pub Short : List (List TaskItem) → Type 0
Short [] = Unit
Short (queue ∷ channels) = (length queue ≤ 1) × Short channels

enqueue-eq :
    (item : TaskItem) (queue : List TaskItem) → length queue ≤ 1 → enqueue item queue ≡ item ∷ []
unfolding enqueue
enqueue-eq item [] h = refl
enqueue-eq item (old ∷ []) h = refl
enqueue-eq item (old ∷ other ∷ queue) h = absurd (omega arith)

module _ (config : Config) (miner : List ℕ) (shard_idx : ℕ) (block : L1Block) (req_diff : ℕ)
    (small : config.nonce_limit < 2 ^ 64) (some_thread : 0 < config.threads_per_shard)
    (few_threads : config.threads_per_shard < 2 ^ 64) (exit : ℕ → Bool)
    (running : (i : ℕ) → i < config.threads_per_shard → exit i ≡ false) where
  abbrev seg : ℕ
  seg = config.nonce_limit / config.threads_per_shard

  abbrev item : ℕ → TaskItem
  item i = task_item config miner shard_idx block req_diff i

  row : (i : ℕ) → i < config.threads_per_shard → i * seg + seg ≤ config.nonce_limit
  row i h = omega (arith, row_le i config.threads_per_shard seg h)

  item_start : (i : ℕ) → i < config.threads_per_shard → (item i).nonce_start ≡ i * seg
  unfolding task_item
  item_start i h = omega (arith, row i h)

  item_end : (i : ℕ) → i + 1 < config.threads_per_shard → (item i).nonce_end ≡ (i + 1) * seg
  unfolding task_item
  item_end i h =
      let last : config.threads_per_shard -64 1 ≡ config.threads_per_shard - 1 = omega arith in
      let other : (i == config.threads_per_shard - 1) ≡ false = ground arith in
      let next : i +64 1 ≡ i + 1 = u64_fits (i + 1) (omega arith) in
      rw (last, other, next) (omega (arith, row i (omega arith)))

  item_last : (i : ℕ) → i + 1 ≡ config.threads_per_shard → (item i).nonce_end ≡ config.nonce_limit
  unfolding task_item
  item_last i h =
      let last : config.threads_per_shard -64 1 ≡ config.threads_per_shard - 1 = omega arith in
      let here : (i == config.threads_per_shard - 1) ≡ true = ground arith in rw (last, here) refl

  assign_from-Tiles :
      (n i : ℕ) (channels : List (List TaskItem))
      → i + suc n ≡ config.threads_per_shard
      → length channels ≡ suc n
      → Short channels
      → (out : List (List TaskItem)) × (assign_from item exit i (suc n) channels ≡ ok out)
        × Tiles (i * seg) out config.nonce_limit
  unfolding assign_from enqueue
  assign_from-Tiles n i [] e l s = absurd (omega arith)
  assign_from-Tiles zero i (channel ∷ next ∷ channels) e l s = absurd (omega arith)
  assign_from-Tiles zero i (channel ∷ []) e l s =
      let end = item_last i e in
      let below : i < config.threads_per_shard = omega arith in
      (
        (item i ∷ []) ∷ [],
        rw (running i below, enqueue-eq (item i) channel s.0) refl,
        (item_start i below, omega (arith, end, row i below), end),
      )
  assign_from-Tiles (suc n) i (channel ∷ channels) e l s =
      let end = item_end i (omega arith) in
      let rest = assign_from-Tiles n (i + 1) channels (omega arith) (omega arith) s.1 in
      (
        (item i ∷ []) ∷ rest.0,
        rw (running i (omega arith), rest.1, enqueue-eq (item i) channel s.0) refl,
        (
          item_start i (omega arith),
          omega (arith, end, row i (omega arith)),
          subst (λ k. Tiles k rest.0 config.nonce_limit) (sym end) rest.2,
        ),
      )

  -- With at least one thread, a channel for each thread that holds at most one item, numbers that
  -- are uint64, and a worker that is not closed, so that no select takes the case of exitCh,
  -- assignTasks leaves one item in every channel, and the ranges of nonces of the
  -- items follow each other from 0 to the limit.
  pub assign_tasks-Tiles :
      (channels : List (List TaskItem))
      → length channels ≡ config.threads_per_shard
      → Short channels
      → (out : List (List TaskItem)) × (assign_tasks config miner shard_idx block req_diff exit
            channels
          ≡ ok out)
        × Tiles 0 out config.nonce_limit
  unfolding assign_tasks
  assign_tasks-Tiles channels l s =
      let some_threads : (config.threads_per_shard == 0) ≡ false = ground arith in
      let count : suc (config.threads_per_shard - 1) ≡ config.threads_per_shard = omega arith in
      let r =
        assign_from-Tiles (config.threads_per_shard - 1) 0 channels (omega arith) (omega arith) s in
      let none : 0 * seg ≡ 0 = omega arith in
      (
        r.0,
        rw some_threads (sym (ap (λ k. assign_from item exit 0 k channels) count) ∙ r.1),
        subst (λ k. Tiles k r.0 config.nonce_limit) none r.2,
      )
