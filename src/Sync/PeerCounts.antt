-- ===== src/Sync/PeerCounts.antt =====
-- ethstorage/p2p/protocol/syncclient.go, addPeerToTask and removePeerFromTask: how the counts of
-- the tasks change.
use es_node.Prelude.{ℕ, suc, ◌+◌, ◌≡◌, ap, ◌∙◌, Bool, true, false, List, [], ◌∷◌, arith}
use es_node.Prelude.Int.{ℤ, pos, inc, dec}
use es_node.Manager.{Map}
use es_node.Sync.{Task}
use es_node.Sync.Peers.{
  Shards, covers, is_for, count_task, count_peer, count_shards, count_contracts, add_peer_to_task,
  remove_peer_from_task,
}

abbrev one_if : Bool → ℕ
one_if true = 1
one_if false = 0

-- How often a peer with these shards counts for a shard of a contract.
abbrev hit : List ℕ → ℕ → List ℕ → ℕ → ℕ
hit c s contract shard = one_if (covers contract shard c s)

abbrev hits : List ℕ → ℕ → List ℕ → List ℕ → ℕ
hits c s contract [] = 0
hits c s contract (shard ∷ shards) = hit c s contract shard + hits c s contract shards

abbrev pub matches : List ℕ → ℕ → Shards → ℕ
matches c s [] = 0
matches c s ((contract, shards) ∷ m) = hits c s contract shards + matches c s m

abbrev pub all_matches : List ℕ → ℕ → Map Shards → ℕ
all_matches c s [] = 0
all_matches c s ((_, shards) ∷ peers) = matches c s shards + all_matches c s peers

-- The counts of the tasks, by contract and shard.
abbrev pub Counts : (List ℕ → ℕ → ℕ) → List Task → Type 0
Counts n [] = Unit
Counts n (t ∷ ts) = (t.state.peer_count ≡ pos (n t.contract t.shard_id)) × Counts n ts

pub Counts-ext :
    (n m : List ℕ → ℕ → ℕ)
    → ((c : List ℕ) (s : ℕ) → n c s ≡ m c s)
    → (ts : List Task) → Counts n ts
    → Counts m ts
Counts-ext n m same [] h = tt
Counts-ext n m same (t ∷ ts) h =
    (h.0 ∙ ap pos (same t.contract t.shard_id), Counts-ext n m same ts h.1)

count_task-inc :
    (b : Bool) (n : ℕ) (t : Task)
    → t.state.peer_count ≡ pos n
    → (count_task b inc t).state.peer_count ≡ pos (n + one_if b)
count_task-inc true n t h = ap inc h
count_task-inc false n t h = h ∙ ap pos (omega arith)

count_task-dec :
    (b : Bool) (n : ℕ) (t : Task)
    → t.state.peer_count ≡ pos (n + one_if b)
    → (count_task b dec t).state.peer_count ≡ pos n
count_task-dec true n t h = ap dec h ∙ ap (λ (k : ℕ). dec (pos k)) (add-one n)
  where
    add-one : (n : ℕ) → n + 1 ≡ suc n
    add-one n = omega arith
count_task-dec false n t h = h ∙ ap pos (omega arith)

-- The contract and the shard of the task stay.
count_task-keeps :
    (m : List ℕ → ℕ → ℕ) (b : Bool) (f : ℤ → ℤ) (t : Task)
    → (count_task b f t).state.peer_count ≡ pos (m t.contract t.shard_id)
    → (count_task b f t).state.peer_count
      ≡ pos (m (count_task b f t).contract (count_task b f t).shard_id)
count_task-keeps m true f t h = h
count_task-keeps m false f t h = h

count_peer-inc :
    (contract : List ℕ) (shard : ℕ) (n : List ℕ → ℕ → ℕ) (ts : List Task)
    → Counts n ts
    → Counts (λ c s. n c s + hit c s contract shard) (count_peer inc contract shard ts)
unfolding count_peer
count_peer-inc contract shard n [] h = tt
count_peer-inc contract shard n (t ∷ ts) h = (
  count_task-keeps (λ c s. n c s + hit c s contract shard) (is_for contract shard t) inc t
      (count_task-inc (is_for contract shard t) (n t.contract t.shard_id) t (h.0)),
  count_peer-inc contract shard n ts h.1,
)

count_peer-dec :
    (contract : List ℕ) (shard : ℕ) (n : List ℕ → ℕ → ℕ) (ts : List Task)
    → Counts (λ c s. n c s + hit c s contract shard) ts
    → Counts n (count_peer dec contract shard ts)
unfolding count_peer
count_peer-dec contract shard n [] h = tt
count_peer-dec contract shard n (t ∷ ts) h = (
  count_task-keeps n (is_for contract shard t) dec t
      (count_task-dec (is_for contract shard t) (n t.contract t.shard_id) t (h.0)),
  count_peer-dec contract shard n ts h.1,
)

count_shards-inc :
    (contract : List ℕ) (shards : List ℕ) (n : List ℕ → ℕ → ℕ) (ts : List Task)
    → Counts n ts
    → Counts (λ c s. n c s + hits c s contract shards) (count_shards inc contract shards ts)
unfolding count_shards
count_shards-inc contract [] n ts h = Counts-ext n _ (λ c s. omega arith) ts h
count_shards-inc contract (shard ∷ shards) n ts h =
    Counts-ext (λ c s. n c s + hit c s contract shard + hits c s contract shards) _
      (λ c s. omega arith) (count_shards inc contract shards (count_peer inc contract shard ts))
      (count_shards-inc contract shards (λ c s. n c s + hit c s contract shard)
        (count_peer inc contract shard ts) (count_peer-inc contract shard n ts h))

count_shards-dec :
    (contract : List ℕ) (shards : List ℕ) (n : List ℕ → ℕ → ℕ) (ts : List Task)
    → Counts (λ c s. n c s + hits c s contract shards) ts
    → Counts n (count_shards dec contract shards ts)
unfolding count_shards
count_shards-dec contract [] n ts h = Counts-ext _ n (λ c s. omega arith) ts h
count_shards-dec contract (shard ∷ shards) n ts h =
    count_shards-dec contract shards n (count_peer dec contract shard ts) (
      count_peer-dec contract shard (λ c s. n c s + hits c s contract shards) ts
        (Counts-ext _ (λ c s. n c s + hits c s contract shards + hit c s contract shard)
          (λ c s. omega arith) ts h))

pub count_contracts-inc :
    (m : Shards) (n : List ℕ → ℕ → ℕ) (ts : List Task)
    → Counts n ts
    → Counts (λ c s. n c s + matches c s m) (add_peer_to_task m ts)
unfolding count_contracts
count_contracts-inc [] n ts h = Counts-ext n _ (λ c s. omega arith) ts h
count_contracts-inc ((contract, shards) ∷ m) n ts h =
    Counts-ext (λ c s. n c s + hits c s contract shards + matches c s m) _ (λ c s. omega arith)
      (add_peer_to_task m (count_shards inc contract shards ts))
      (count_contracts-inc m (λ c s. n c s + hits c s contract shards)
        (count_shards inc contract shards ts) (count_shards-inc contract shards n ts h))

pub count_contracts-dec :
    (m : Shards) (n : List ℕ → ℕ → ℕ) (ts : List Task)
    → Counts (λ c s. n c s + matches c s m) ts
    → Counts n (remove_peer_from_task m ts)
unfolding count_contracts
count_contracts-dec [] n ts h = Counts-ext _ n (λ c s. omega arith) ts h
count_contracts-dec ((contract, shards) ∷ m) n ts h =
    count_contracts-dec m n (count_shards dec contract shards ts) (
      count_shards-dec contract shards (λ c s. n c s + matches c s m) ts
        (Counts-ext _ (λ c s. n c s + matches c s m + hits c s contract shards) (λ c s. omega arith)
          ts h))
