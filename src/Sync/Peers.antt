-- ===== src/Sync/Peers.antt =====
-- ethstorage/p2p/protocol/syncclient.go: the peers of the sync client. A peer is an id with the
-- shards that it has, by contract; the counts of peers do not reach 2^63.
use es_node.Prelude.{
  ℕ, Bool, true, false, not, ◌&&◌, ◌||◌, List, [], ◌∷◌, Option, none, some, length, ◌==◌,
  if◌then◌else◌, bytes_equal,
}
use es_node.Prelude.Int.{ℤ, pos, leb_ℤ, inc, dec}
use es_node.Manager.{Map, insert, lookup}
use es_node.Storage.{remove}
use es_node.Sync.{Task}

-- The shards of a peer by contract.
abbrev pub Shards : Type 0
Shards = List (List ℕ × List ℕ)

pub record SyncPeers : Type 0 where
  pub peers : Map Shards
  pub idler_peers : List ℕ
  pub tasks : List Task
  pub closing_peers : Bool
  pub max_peers : ℤ
  pub min_peers_per_shard : ℤ

-- The task is for the shard of the contract.
unfoldable pub covers : List ℕ → ℕ → List ℕ → ℕ → Bool
covers contract shard task_contract shard_id =
    bytes_equal task_contract contract && (shard == shard_id)

abbrev pub is_for : List ℕ → ℕ → Task → Bool
is_for contract shard t = covers contract shard t.contract t.shard_id

abbrev pub count_task : Bool → (ℤ → ℤ) → Task → Task
count_task true f t = record t { state = record (t.state) { peer_count = f t.state.peer_count } }
count_task false f t = t

-- One round of addPeerToTask and of removePeerFromTask.
unfoldable pub count_peer : (ℤ → ℤ) → List ℕ → ℕ → List Task → List Task
count_peer f contract shard [] = []
count_peer f contract shard (t ∷ ts) =
    count_task (is_for contract shard t) f t ∷ count_peer f contract shard ts

unfoldable pub count_shards : (ℤ → ℤ) → List ℕ → List ℕ → List Task → List Task
count_shards f contract [] ts = ts
count_shards f contract (s ∷ ss) ts = count_shards f contract ss (count_peer f contract s ts)

unfoldable pub count_contracts : (ℤ → ℤ) → Shards → List Task → List Task
count_contracts f [] ts = ts
count_contracts f ((contract, ss) ∷ m) ts = count_contracts f m (count_shards f contract ss ts)

abbrev pub add_peer_to_task : Shards → List Task → List Task
add_peer_to_task shards ts = count_contracts inc shards ts

abbrev pub remove_peer_from_task : Shards → List Task → List Task
remove_peer_from_task shards ts = count_contracts dec shards ts

-- The loops of needThisPeer; the test is that one of the counts is below its limit.
module _ (s : SyncPeers) where
  unfoldable pub task_needs : List ℕ → ℕ → List Task → Bool
  task_needs contract shard [] = false
  task_needs contract shard (t ∷ ts) =
      is_for contract shard t
        && (not (leb_ℤ s.max_peers (pos (length s.peers)))
            || not (leb_ℤ s.min_peers_per_shard t.state.peer_count))
      || task_needs contract shard ts

  unfoldable pub shards_need : List ℕ → List ℕ → Bool
  shards_need contract [] = false
  shards_need contract (shard ∷ shards) =
      task_needs contract shard s.tasks || shards_need contract shards

  unfoldable pub need_this_peer : Shards → Bool
  need_this_peer [] = false
  need_this_peer ((contract, shards) ∷ m) = shards_need contract shards || need_this_peer m

abbrev pub is_registered : Option Shards → Bool
is_registered none = false
is_registered (some shards) = true

unfoldable pub add_peer : ℕ → Shards → SyncPeers → Bool × SyncPeers
add_peer id shards s =
    if is_registered (lookup id s.peers)
    then (true, s)
    else if s.closing_peers
    then (false, s)
    else if not (need_this_peer s shards)
    then (false, s)
    else (
      true,
      record s {
        peers = insert id shards s.peers;
        idler_peers = id ∷ s.idler_peers;
        tasks = add_peer_to_task shards s.tasks;
      },
    )

-- delete(set, id)
unfoldable pub without : ℕ → List ℕ → List ℕ
without id [] = []
without id (x ∷ xs) = let rest = without id xs in if x == id then rest else x ∷ rest

unfoldable pub forget_peer : ℕ → List Task → List Task
forget_peer id [] = []
forget_peer id (t ∷ ts) =
    record t { stateless_peers = without id t.stateless_peers } ∷ forget_peer id ts

unfoldable pub remove_peer : ℕ → SyncPeers → Bool × SyncPeers
remove_peer id s = elim (lookup id s.peers) [
  | none ↦ (false, s)
  | some shards ↦ (
    true,
    record s {
      peers = remove id s.peers;
      idler_peers = without id s.idler_peers;
      tasks = forget_peer id (remove_peer_from_task shards s.tasks);
    },
  )
]

-- A peer is given a request, and is idle again when it has answered, if it is still there.
unfoldable pub occupy_peer : ℕ → SyncPeers → SyncPeers
occupy_peer id s = record s { idler_peers = without id s.idler_peers }

unfoldable pub release_peer : ℕ → SyncPeers → SyncPeers
release_peer id s =
    if is_registered (lookup id s.peers) then record s { idler_peers = id ∷ s.idler_peers } else s
