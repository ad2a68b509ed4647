-- ===== src/Worker.antt =====
-- ethstorage/miner/worker.go: the mining tasks of a shard, which threads work through, and what
-- becomes of their results. Time, the running flag and the answers of L1 are arguments.
pub mod Nonces
pub mod Search
use es_node.Prelude.{
  ℕ, zero, suc, ◌+◌, ◌-◌, ◌*◌, ◌/◌, ◌%◌, ◌^◌, Bool, true, false, not, List, [], ◌∷◌, ◌++◌, Option,
  none, some, leb, ◌==◌, if◌then◌else◌, ◌+64◌, ◌-64◌, ◌*64◌,
}
use es_node.Outcome.{Error, Outcome, ok, err, panic, ◌>>=◌, ◌>>◌, refuse_if, mined_ts_too_small}
use es_node.Externals.{Externals}
use es_node.BigEndian.{be_value}
use es_node.Manager.{Map, lookup, insert}
use es_node.Miner.{init_hash, expected_diff}

pub record Config : Type 0 where
  pub nonce_limit : ℕ
  pub threads_per_shard : ℕ
  pub cutoff : ℕ
  pub diff_adj_divisor : ℕ
  pub minimum_diff : ℕ

pub record L1Block : Type 0 where
  pub number : ℕ
  pub time : ℕ
  pub mix_digest : List ℕ

pub record TaskItem : Type 0 where
  pub miner : List ℕ
  pub shard_idx : ℕ
  pub required_diff : ℕ
  pub block_number : ℕ
  pub mix_hash : List ℕ
  pub nonce_start : ℕ
  pub nonce_end : ℕ
  pub mine_time : ℕ
  pub thread : ℕ

-- The item of thread i: the last thread takes the nonces that the division leaves.
unfoldable pub task_item : Config → List ℕ → ℕ → L1Block → ℕ → ℕ → TaskItem
task_item config miner shard_idx block req_diff i =
    let seg = config.nonce_limit / config.threads_per_shard in
    record {
      miner = miner;
      shard_idx = shard_idx;
      required_diff = req_diff;
      block_number = block.number;
      mix_hash = block.mix_digest;
      nonce_start = seg *64 i;
      nonce_end =
          if i == config.threads_per_shard -64 1 then config.nonce_limit else seg *64 (i +64 1);
      mine_time = block.time;
      thread = i;
    }

-- A full channel loses the old item; a channel holds one.
unfoldable pub enqueue : TaskItem → List TaskItem → List TaskItem
enqueue item [] = item ∷ []
enqueue item (old ∷ queue) = queue ++ item ∷ []

-- The items of the threads i, i + 1, ... go to the channels of the threads: a panic if there are
-- fewer channels. `exit i` says that the select of thread i takes the case of exitCh, which a closed
-- worker makes ready: the method returns, and the channels from i on stay as they are.
unfoldable pub assign_from :
    (ℕ → TaskItem) → (ℕ → Bool) → ℕ → ℕ → List (List TaskItem) → Outcome (List (List TaskItem))
unfolding enqueue
assign_from item exit i zero channels = ok channels
assign_from item exit i (suc n) [] = panic
assign_from item exit i (suc n) (channel ∷ channels) =
    let later = assign_from item exit (i + 1) n channels in
    if exit i
    then ok (channel ∷ channels)
    else (later >>= λ rest. ok (enqueue (item i) channel ∷ rest))

unfoldable pub assign_tasks :
    Config
    → List ℕ
    → ℕ
    → L1Block
    → ℕ
    → (ℕ → Bool)
    → List (List TaskItem)
    → Outcome (List (List TaskItem))
unfolding assign_from
assign_tasks config miner shard_idx block req_diff exit channels =
    if config.threads_per_shard == 0
    then panic
    else assign_from (task_item config miner shard_idx block req_diff) exit 0
        config.threads_per_shard channels

-- The answer of GetMiningInfo.
pub record MiningInfo : Type 0 where
  pub difficulty : ℕ
  pub last_mine_time : ℕ

unfoldable pub update_difficulty : Config → Outcome MiningInfo → L1Block → Outcome ℕ
update_difficulty config asked block = do
  info ← asked
  refuse_if (leb block.time info.last_mine_time) mined_ts_too_small
  diff ←
      expected_diff (block.time - info.last_mine_time) info.difficulty config.cutoff
        config.diff_adj_divisor config.minimum_diff
  if diff == 0 then panic else ok ((2 ^ 256 - 1) / diff)

-- How mineTask ends without an error.
pub data Mined (R : Type 0) : Type 0 where
  found : ℕ → R → Mined R
  exhausted timed_out stopped : Mined R

-- What a turn of the loop sees: the running flag, and whether the slot is over.
pub record Tick : Type 0 where
  pub running : Bool
  pub slot_over : Bool

-- compute_hash answers the hash and its samples for a first hash, and prove makes the result of a
-- nonce and its samples: getMiningData and GetStorageProof.
module _ (x : Externals) {R : Type 0} (compute_hash : List ℕ → Outcome (List ℕ × List ℕ))
    (prove : ℕ → List ℕ → Outcome R) (item : TaskItem) where
  -- requiredDiff >= hash1
  abbrev pub meets : List ℕ → Bool
  meets hash = leb (be_value hash) item.required_diff

  abbrev pub finish : ℕ → List ℕ → Outcome (Mined R)
  finish nonce sample_idxs = prove nonce sample_idxs >>= λ r. ok (found nonce r)

  -- `none` means that the ticks ran out.
  unfoldable pub mine_from : List Tick → ℕ → Option (Outcome (Mined R))
  mine_from [] nonce = none
  mine_from (tick ∷ ticks) nonce = elim tick.running [
    | false ↦ some (ok stopped)
    | true ↦ elim tick.slot_over [
      | true ↦ some (ok timed_out)
      | false ↦ elim (leb item.nonce_end nonce) [
        | true ↦ some (ok exhausted)
        | false ↦ elim (compute_hash (init_hash x item.miner item.mix_hash nonce)) [
          | err e ↦ some (err e)
          | panic ↦ some panic
          | ok h ↦ elim (meets h.0) [
            | true ↦ some (finish nonce h.1)
            | false ↦ mine_from ticks (nonce +64 1)
          ]
        ]
      ]
    ]
  ]

  unfoldable pub mine_task : List Tick → Option (Outcome (Mined R))
  unfolding mine_from
  mine_task ticks = mine_from ticks item.nonce_start

-- The results that wait for submission, by shards; a result that was taken leaves nil.
unfoldable pub set_result : {R : Type 0} → ℕ → R → Map (Option R) → Map (Option R)
set_result shard_idx r results = insert shard_idx (some r) results

unfoldable pub get_result : {R : Type 0} → Map (Option R) → Option R × Map (Option R)
get_result [] = (none, [])
get_result ((k, some r) ∷ results) = (some r, (k, none) ∷ results)
get_result ((k, none) ∷ results) = let (r, rest) = get_result results in (r, (k, none) ∷ rest)

pub record SubmissionState : Type 0 where
  pub submitted : ℕ
  pub failed : ℕ
  pub dropped : ℕ

-- What SubmitMinedResult answers.
pub data Submission : Type 0 where
  accepted rejected not_profitable : Submission

unfoldable pub count_submission : Submission → SubmissionState → SubmissionState
count_submission accepted s = record s { submitted = s.submitted + 1 }
count_submission rejected s = record s { failed = s.failed + 1 }
count_submission not_profitable s = record s { dropped = s.dropped + 1 }

-- A shard without a state is not counted.
unfoldable pub on_submission : ℕ → Submission → Map SubmissionState → Map SubmissionState
unfolding count_submission
on_submission shard_idx answer states = elim (lookup shard_idx states) [
  | none ↦ states
  | some s ↦ insert shard_idx (count_submission answer s) states
]
