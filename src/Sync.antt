-- ===== src/Sync.antt =====
-- ethstorage/p2p/protocol/task.go and syncclient.go: the tasks of the p2p sync of a shard. A sub
-- task is a range of entries to fetch, an empty one a range to fill, and the heal task holds the
-- indices that peers left out. A pointer to a sub task is its position in the task.
pub mod Reports
pub mod Creation
pub mod Tiles
pub mod Client
pub mod Heal
pub mod Coverage
pub mod Answers
pub mod Reach
pub mod Steps
pub mod Panics
pub mod Peers
pub mod PeerCounts
pub mod Registered
use es_node.Prelude.{
  ℕ, zero, suc, ◌+◌, ◌-◌, ◌*◌, ◌/◌, ◌%◌, ◌^◌, min, Bool, true, false, not, ◌&&◌, ◌||◌, List, [],
  ◌∷◌, ◌++◌, Option, none, some, length, ltb, leb, ◌==◌, if◌then◌else◌, ◌+64◌, ◌-64◌, ◌*64◌,
}
use es_node.Prelude.Int.{ℤ, pos}
use es_node.Outcome.{Outcome, ok, err, panic, ◌>>=◌}
use es_node.Manager.{Map, insert, lookup, insert_sorted}
use es_node.Storage.{remove}

pub record SubTask : Type 0 where
  pub next : ℕ
  pub first : ℕ
  pub last : ℕ
  pub is_running : Bool
  pub done : Bool

pub record SubEmptyTask : Type 0 where
  pub first : ℕ
  pub last : ℕ
  pub is_running : Bool
  pub done : Bool

pub record SyncState : Type 0 where
  pub peer_count : ℤ
  pub blobs_synced : ℕ
  pub blobs_to_sync : ℕ
  pub sync_progress : ℕ
  pub synced_seconds : ℕ
  pub empty_filled : ℕ
  pub empty_to_fill : ℕ
  pub fill_empty_progress : ℕ
  pub fill_empty_seconds : ℕ

-- The heal task is its map from indices to the times of the last requests.
pub record Task : Type 0 where
  pub contract : List ℕ
  pub shard_id : ℕ
  pub sub_tasks : List SubTask
  pub next_idx : ℕ
  pub heal_task : Map ℕ
  pub sub_empty_tasks : List SubEmptyTask
  pub stateless_peers : List ℕ
  pub state : SyncState
  pub done : Bool

-- _, ok := m[k]
unfoldable pub has_key : {A : Type 0} → ℕ → Map A → Bool
has_key k [] = false
has_key k ((j, _) ∷ m) = if j == k then true else has_key k m

-- _, ok := set[k]
unfoldable pub elem : ℕ → List ℕ → Bool
elem k [] = false
elem k (x ∷ xs) = if x == k then true else elem k xs

-- delete of a missing key changes nothing, as the test before it asks.
unfoldable pub heal_remove : List ℕ → Map ℕ → Map ℕ
heal_remove [] heal = heal
heal_remove (i ∷ is) heal = heal_remove is (remove i heal)

-- refresh gives every index the time t, insert the time 0.
unfoldable pub heal_refresh : ℕ → List ℕ → Map ℕ → Map ℕ
heal_refresh t [] heal = heal
heal_refresh t (i ∷ is) heal = heal_refresh t is (insert i t heal)

abbrev pub heal_insert : List ℕ → Map ℕ → Map ℕ
heal_insert is heal = heal_refresh 0 is heal

-- The order in which Go walks through the map does not matter for the least index.
unfoldable pub has_index_in_range : ℕ → ℕ → Map ℕ → Bool × ℕ
has_index_in_range first next [] = (false, next)
has_index_in_range first next ((idx, _) ∷ heal) =
    let (exist, least) = has_index_in_range first next heal in
    if ltb idx next && leb first idx
    then (true, (if ltb idx least then idx else least))
    else (exist, least)

-- The indices of the heal task in the order `heal` in which Go walks through the map, with the
-- time `now` in milliseconds, up to a batch; the timeout is one second.
unfoldable pub get_blob_indexes_for_request : ℕ → ℕ → ℕ → Map ℕ → List ℕ
get_blob_indexes_for_request now batch l [] = []
get_blob_indexes_for_request now batch l ((idx, tm) ∷ heal) =
    let taken = ltb (tm + 1000) now in
    let l' = if taken then l + 1 else l in
    let rest = get_blob_indexes_for_request now batch l' heal in
    let left = if leb batch l' then [] else rest in if taken then idx ∷ left else left

-- The loop of cleanTasks over the sub tasks from position i on, with the task's nextIdx.
unfoldable pub clean_sub_tasks : Map ℕ → ℕ → List SubTask → ℕ → List SubTask × ℕ
clean_sub_tasks heal i [] next_idx = ([], next_idx)
clean_sub_tasks heal i (st ∷ sts) next_idx =
    let (exist, first) = has_index_in_range st.first st.next heal in
    let (removed, n) =
      clean_sub_tasks heal i sts (if ltb i next_idx then next_idx - 1 else next_idx) in
    let (kept, n') = clean_sub_tasks heal (i + 1) sts next_idx in
    if st.done && not exist then (removed, n) else (record st { first = first } ∷ kept, n')

unfoldable pub clean_empty_tasks : List SubEmptyTask → List SubEmptyTask
clean_empty_tasks [] = []
clean_empty_tasks (et ∷ ets) =
    let rest = clean_empty_tasks ets in if et.done then rest else et ∷ rest

abbrev nothing_left : List SubTask → List SubEmptyTask → Bool
nothing_left [] [] = true
nothing_left _ _ = false

unfoldable pub clean_task : Task → Task
clean_task t =
    let (sts, n) = clean_sub_tasks t.heal_task 0 t.sub_tasks t.next_idx in
    let ets = clean_empty_tasks t.sub_empty_tasks in
    record t {
      sub_tasks = sts;
      next_idx = n;
      sub_empty_tasks = ets;
      done = (if nothing_left sts ets then true else t.done);
    }

-- The first loop of loadSyncStatus on what saveSyncStatus stored: `first` and `last` of the sub
-- tasks are kept, and the fields that are not exported start afresh.
unfoldable pub reload_sub_tasks : List SubTask → List SubTask
reload_sub_tasks [] = []
reload_sub_tasks (st ∷ sts) =
    record { next = st.first; first = st.first; last = st.last; is_running = false; done = false }
    ∷ reload_sub_tasks sts

unfoldable pub reload_empty_tasks : List SubEmptyTask → List SubEmptyTask
reload_empty_tasks [] = []
reload_empty_tasks (et ∷ ets) =
    record { first = et.first; last = et.last; is_running = false; done = false }
    ∷ reload_empty_tasks ets

unfoldable pub reload_task : Task → Task
reload_task t = record t {
  sub_tasks = reload_sub_tasks t.sub_tasks;
  next_idx = 0;
  heal_task = [];
  sub_empty_tasks = reload_empty_tasks t.sub_empty_tasks;
  stateless_peers = [];
  state = record (t.state) { peer_count = pos 0 };
  done = false;
}

-- slices.Sort
unfoldable pub sort : List ℕ → List ℕ
sort [] = []
sort (x ∷ xs) = insert_sorted x (sort xs)

abbrev pub last_of : ℕ → List ℕ → ℕ
last_of x [] = x
last_of x (y ∷ ys) = last_of y ys

-- The loop of OnBlobsByRange with `count` indices left from n on: beyond the end of `inserted` the
-- access panics.
unfoldable pub missing_from : ℕ → ℕ → List ℕ → Outcome (List ℕ)
missing_from zero n inserted = ok []
missing_from (suc count) n [] = panic
missing_from (suc count) n (x ∷ xs) =
    let found = missing_from count (n + 1) xs in
    let passed = missing_from count (n + 1) (x ∷ xs) in
    if x == n then found else if ltb n x then passed >>= (λ ms. ok (n ∷ ms)) else passed

abbrev pub nth_sub : ℕ → List SubTask → Option SubTask
nth_sub k [] = none
nth_sub zero (st ∷ sts) = some st
nth_sub (suc k) (st ∷ sts) = nth_sub k sts

abbrev pub set_sub : ℕ → SubTask → List SubTask → List SubTask
set_sub k st' [] = []
set_sub zero st' (st ∷ sts) = st' ∷ sts
set_sub (suc k) st' (st ∷ sts) = st ∷ set_sub k st' sts

-- A sub task after the blobs up to index `upto` were handled.
abbrev pub advanced : SubTask → ℕ → SubTask
advanced st upto = record st {
  done = (if upto == st.last -64 1 then true else st.done);
  next = upto +64 1;
}

-- The end of OnBlobsByRange for the sub task at position k: the sorted indices that were inserted
-- are x, then xs.
unfoldable pub settle_range : ℕ → SubTask → ℕ → List ℕ → Task → Outcome Task
settle_range k st x xs t = do
  missing ← missing_from (last_of x xs + 1 - st.next) st.next (x ∷ xs)
  ok (record t {
    state = record (t.state) { blobs_synced = t.state.blobs_synced +64 length (x ∷ xs) };
    heal_task = heal_insert missing t.heal_task;
    sub_tasks = set_sub k (advanced st (last_of x xs)) t.sub_tasks;
  })

-- The end of OnBlobsByList.
unfoldable pub settle_list : List ℕ → Task → Task
settle_list inserted t = record t {
  state = record (t.state) { blobs_synced = t.state.blobs_synced +64 length inserted };
  heal_task = heal_remove inserted t.heal_task;
}

abbrev set_empty : ℕ → (SubEmptyTask → SubEmptyTask) → List SubEmptyTask → List SubEmptyTask
set_empty k f [] = []
set_empty zero f (et ∷ ets) = f et ∷ ets
set_empty (suc k) f (et ∷ ets) = et ∷ set_empty k f ets

-- What a goroutine of assignFillEmptyBlobTasks leaves, when it filled `filled` entries up to
-- `next` for the empty sub task at position k.
unfoldable pub settle_empty : ℕ → ℕ → ℕ → Task → Task
settle_empty k filled next t = record t {
  state = record (t.state) { empty_filled = t.state.empty_filled +64 filled };
  sub_empty_tasks =
      set_empty k
        (λ et. record et {
          first = next;
          done = (if leb et.last next then true else et.done);
          is_running = false;
        })
        t.sub_empty_tasks;
}
