-- ===== src/Worker/Search.antt =====
-- The search of a thread through its nonces (ethstorage/miner/worker.go, mineTask).
use es_node.Prelude.{
  ℕ, zero, suc, ◌+◌, ◌-◌, ◌^◌, ◌≤◌, ◌<◌, ◌≡◌, refl, Bool-cases, true, false, inl, inr, List, [],
  ◌∷◌, Option, none, some, length, leb, arith, u64_fits, ◌+64◌,
}
use es_node.Outcome.{Outcome, ok}
use es_node.Externals.{Externals}
use es_node.Miner.{init_hash}
use es_node.Worker.{TaskItem, Mined, exhausted, Tick, meets, finish, mine_from, mine_task}

-- The worker runs and the slot is not over.
abbrev pub Calm : List Tick → Type 0
Calm [] = Unit
Calm (tick ∷ ticks) = (tick.running ≡ true) × (tick.slot_over ≡ false) × Calm ticks

module _ (x : Externals) {R : Type 0} (compute_hash : List ℕ → Outcome (List ℕ × List ℕ))
    (prove : ℕ → List ℕ → Outcome R) (item : TaskItem) where
  abbrev hash_of : ℕ → Outcome (List ℕ × List ℕ)
  hash_of nonce = compute_hash (init_hash x item.miner item.mix_hash nonce)

  -- The first of n nonces whose hash meets the difficulty.
  unfoldable pub first_valid :
      ((nonce : ℕ) → (h : List ℕ × List ℕ) × (hash_of nonce ≡ ok h)) → ℕ → ℕ → Option (ℕ × List ℕ)
  first_valid hashes zero nonce = none
  first_valid hashes (suc n) nonce = elim (meets x compute_hash prove item (hashes nonce).0.0) [
    | true ↦ some (nonce, (hashes nonce).0.1)
    | false ↦ first_valid hashes n (nonce + 1)
  ]

  abbrev pub mined : Option (ℕ × List ℕ) → Outcome (Mined R)
  mined none = ok exhausted
  mined (some (nonce, samples)) = finish x compute_hash prove item nonce samples

  module _ (hashes : (nonce : ℕ) → (h : List ℕ × List ℕ) × (hash_of nonce ≡ ok h))
      (small : item.nonce_end < 2 ^ 64) where
    mine_from-first_valid :
        (n nonce : ℕ) (ticks : List Tick)
        → nonce + n ≡ item.nonce_end
        → n < length ticks
        → Calm ticks
        → mine_from x compute_hash prove item ticks nonce
          ≡ some (mined (first_valid hashes n nonce))
    unfolding mine_from first_valid
    mine_from-first_valid n nonce [] e enough calm = absurd (omega arith)
    mine_from-first_valid zero nonce (tick ∷ ticks) e enough calm =
        let past : leb item.nonce_end nonce ≡ true = ground arith in
        rw (mine_from, calm.0, calm.1, past) refl
    mine_from-first_valid (suc n) nonce (tick ∷ ticks) e enough calm =
        let inside : leb item.nonce_end nonce ≡ false = ground arith in
        let next : nonce +64 1 ≡ nonce + 1 = u64_fits (nonce + 1) (omega arith) in
        elim (Bool-cases (meets x compute_hash prove item (hashes nonce).0.0)) [
          | inl valid ↦
              rw (mine_from, calm.0, calm.1, inside, (hashes nonce).1, first_valid, valid) refl
          | inr invalid ↦
              rw (mine_from, calm.0, calm.1, inside, (hashes nonce).1, first_valid, invalid, next)
                (mine_from-first_valid n (nonce + 1) ticks (omega arith) (omega arith) calm.2)
        ]

    -- If the worker runs, the slot lasts for more turns than the item has nonces, and every hash can
    -- be computed, then mineTask makes the proof of the first nonce of the item whose hash meets
    -- the difficulty, and ends without a result if there is none.
    pub mine_task-first_valid :
        (ticks : List Tick)
        → item.nonce_start ≤ item.nonce_end
        → item.nonce_end - item.nonce_start < length ticks
        → Calm ticks
        → mine_task x compute_hash prove item ticks
          ≡ some (mined (first_valid hashes (item.nonce_end - item.nonce_start) item.nonce_start))
    unfolding mine_task
    mine_task-first_valid ticks ordered enough calm =
        mine_from-first_valid (item.nonce_end - item.nonce_start) item.nonce_start ticks
          (omega arith) enough calm
