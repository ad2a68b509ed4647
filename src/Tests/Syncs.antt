-- ===== src/Tests/Syncs.antt =====
-- A small shard is synced: four entries of which the contract has two.
use es_node.Prelude.{
  ◌++◌, ℕ, ◌+◌, ◌*◌, ◌≤◌, ◌<◌, ◌≡◌, refl, true, false, List, [], ◌∷◌, replicate, bytes_equal, arith,
  inl, inr,
}
use es_node.Prelude.Int.{ℤ, pos}
use es_node.Outcome.{ok, panic}
use es_node.Manager.{insert, lookup, insert_sorted}
use es_node.Storage.{StorageManager}
use es_node.Sync.{
  reload_task, reload_sub_tasks, reload_empty_tasks, SubTask, Task, elem, has_index_in_range,
  clean_sub_tasks, clean_task, sort, missing_from, settle_range, heal_refresh,
}
use es_node.Sync.Creation.{
  create_task, divide_shard, part_size, empty_ranges, split_range, sub_empty_tasks_of, no_progress,
}
use es_node.Sync.Tiles.{Splits, create_task-Splits}
use es_node.Sync.Coverage.{Inv}
use es_node.Sync.Heal.{Distinct}
use es_node.Sync.Reach.{Step, Reach, restart, start, then_step, range_answer, clean, Reach-elem}
use es_node.Sync.Client.{
  BlobPayload, BlobsByRangeRequest, blobs_in_range, on_blobs_by_range, on_result,
}
use es_node.Sync.Steps.{StepOf, on_blobs_by_range-StepOf}
use es_node.Sync.Panics.{on_result-panic}
use es_node.Sync.Peers.{
  SyncPeers, Shards, covers, task_needs, shards_need, need_this_peer, add_peer, remove_peer,
  occupy_peer, release_peer, count_peer, count_shards, count_contracts,
}
use es_node.Sync.Registered.{Consistent, peers-Consistent}
use es_node.Tests.World.{world, small_shard, some_commit}
use es_node.Tests.Managers.{small_manager}

create_task-Splits_example :
    (t : Task) × (create_task (replicate 20 6) 4 1 1 0 2 ≡ ok t) × Splits (4 * 0) (4 * (0 + 1)) 2 t
create_task-Splits_example =
    create_task-Splits (replicate 20 6) 4 1 1 0 2 (omega arith) (omega arith) (omega arith)
      (omega arith)

abbrev two_entries : SubTask
two_entries = record { next = 0; first = 0; last = 2; is_running = false; done = false }

abbrev synced : Task
synced = record {
  contract = replicate 20 6;
  shard_id = 0;
  sub_tasks = two_entries ∷ [];
  next_idx = 0;
  heal_task = [];
  sub_empty_tasks = sub_empty_tasks_of ((2, 4) ∷ []);
  stateless_peers = [];
  state = record no_progress { empty_to_fill = 2 };
  done = false;
}

created : create_task (replicate 20 6) 4 1 1 0 2 ≡ ok synced
unfolding create_task divide_shard part_size empty_ranges split_range
created = refl

synced-Inv : Inv 0 2 [] synced
synced-Inv = record {
  subs = (
    record {
      handled = λ i p q. absurd (omega arith);
      finished = λ d. absurd (ground arith);
      ordered = omega arith;
      small = omega arith;
    },
    tt,
  );
  wanted = λ i a b. inr (inl (a, b));
}

abbrev both : List ℕ
both = 1 ∷ 0 ∷ []

both-Distinct : Distinct both
unfolding elem
both-Distinct = (refl, (refl, tt))

both-asked : (j : ℕ) → elem j both ≡ true → (0 ≤ j) × (j < 2)
unfolding elem
both-asked j h = ground arith

both-sorted : sort both ≡ 0 ∷ 1 ∷ []
unfolding sort insert_sorted
both-sorted = refl

-- Both entries arrive, and the sub task is removed.
abbrev arrived : Task
arrived = record synced {
  sub_tasks = record two_entries { next = 2; done = true } ∷ [];
  state = record no_progress { empty_to_fill = 2; blobs_synced = 2 };
}

settled : settle_range 0 two_entries 0 (1 ∷ []) synced ≡ ok arrived
unfolding settle_range missing_from heal_refresh
settled = refl

answer_to : (c : List ℕ) → Step synced c arrived (both ++ c)
answer_to c = range_answer 0 two_entries both 0 (1 ∷ []) refl both-asked both-sorted settled refl

cleaned : (clean_task arrived).sub_tasks ≡ []
unfolding clean_task clean_sub_tasks has_index_in_range
cleaned = refl

-- The client crashes after the answer, before anything was saved, and gets the answer again.
run : Reach synced [] synced (clean_task arrived) (both ++ both)
unfolding reload_task reload_sub_tasks reload_empty_tasks
run =
    then_step (then_step (restart (then_step start (answer_to []))) (answer_to both))
      (clean refl refl)

Reach-elem_example : elem 1 (both ++ both) ≡ true
unfolding run answer_to
Reach-elem_example =
    Reach-elem (replicate 20 6) 4 1 1 0 2 (omega arith) (omega arith) (omega arith) (omega arith)
      synced created run (((tt, both-Distinct), both-Distinct), tt) 1 (omega arith) (omega arith)
      (omega arith) cleaned

-- With an index twice the loop of OnBlobsByRange finds no index missing, though 4 is.
missing_from-repeated : missing_from 3 3 (3 ∷ 3 ∷ 5 ∷ []) ≡ ok []
unfolding missing_from
missing_from-repeated = refl

abbrev storage : StorageManager
storage = record {
  download_thread_num = 1;
  shard_manager = small_manager;
  local_l1 = pos 5;
  kv_entry_count = 2;
  blob_metas = [];
}

abbrev request : BlobsByRangeRequest
request = record { peer = 7; origin = 0; limit = 1; sub_idx = 0 }

abbrev payload : ℕ → ℕ → BlobPayload
payload i t = record {
  miner_address = replicate 20 1;
  blob_index = i;
  blob_commit = some_commit;
  encode_type = t;
  encoded_blob = 1 ∷ [];
}

on_blobs_by_range-StepOf_example :
    StepOf
      (on_result world (blobs_in_range 0 1 (payload 1 1 ∷ [])) storage).0
      synced
      []
      (on_blobs_by_range world request true two_entries (payload 1 1 ∷ []) synced storage).0
unfolding elem
on_blobs_by_range-StepOf_example =
    on_blobs_by_range-StepOf world request true two_entries synced [] refl refl (omega arith) 0 2
      synced-Inv (payload 1 1 ∷ []) storage (refl, tt)

on_result-panic_example : (on_result world (payload 0 4 ∷ []) storage).0 ≡ panic
unfolding lookup
on_result-panic_example =
    on_result-panic world (payload 0 4) [] storage small_shard refl (omega arith) (omega arith)
      (omega arith)

-- A peer with shard 0 of the contract, before and after it is added.
abbrev no_peers : SyncPeers
no_peers = record {
  peers = [];
  idler_peers = [];
  tasks = synced ∷ [];
  closing_peers = false;
  max_peers = pos 10;
  min_peers_per_shard = pos 3;
}

no_peers-Consistent : Consistent no_peers
unfolding elem
no_peers-Consistent = record { idle_there = λ j h. absurd (ground arith); counted = (refl, tt) }

abbrev peer_shards : Shards
peer_shards = (replicate 20 6, 0 ∷ []) ∷ []

abbrev first_count : List Task → ℤ
first_count [] = pos 0
first_count (t ∷ ts) = t.state.peer_count

add_peer-counted : first_count (add_peer 7 peer_shards no_peers).1.tasks ≡ pos 1
unfolding add_peer need_this_peer shards_need task_needs covers bytes_equal lookup insert
    count_contracts count_shards count_peer
add_peer-counted = refl

peers-Consistent_example :
    Consistent (add_peer 7 peer_shards no_peers).1
    × Consistent (remove_peer 7 no_peers).1
    × Consistent (occupy_peer 7 no_peers)
    × Consistent (release_peer 7 no_peers)
peers-Consistent_example = peers-Consistent 7 no_peers no_peers-Consistent peer_shards
