-- ===== src/Sync/Registered.antt =====
-- ethstorage/p2p/protocol/syncclient.go, AddPeer and RemovePeer: the idle peers, and the counts of
-- peers, are those of the peers that are registered.
use es_node.Prelude.{
  ℕ, ◌+◌, ◌≡◌, ◌≢◌, refl, sym, ap, subst, ◌∙◌, Bool, true, false, not, List, [], ◌∷◌, none, some,
  ◌==◌, if◌then◌else◌, arith, Bool-cases, Option-cases, some-injective, inl, inr,
}
use es_node.Manager.{Map, insert, lookup}
use es_node.Storage.{remove}
use es_node.Sync.{Task, elem, has_key}
use es_node.Sync.Heal.{has_key-insert, has_key-remove_ne}
use es_node.Sync.Peers.{
  Shards, SyncPeers, need_this_peer, is_registered, add_peer, without, forget_peer, remove_peer,
  occupy_peer, release_peer, add_peer_to_task, remove_peer_from_task,
}
use es_node.Sync.PeerCounts.{
  Counts, Counts-ext, matches, all_matches, count_contracts-inc, count_contracts-dec,
}

all_matches-insert :
    (c : List ℕ) (s id : ℕ) (m : Shards) (peers : Map Shards)
    → lookup id peers ≡ none
    → all_matches c s (insert id m peers) ≡ all_matches c s peers + matches c s m
unfolding insert lookup
all_matches-insert c s id m [] h = omega arith
all_matches-insert c s id m ((j, m') ∷ peers) h = elim (Bool-cases (j == id)) [
  | inl same ↦ absurd (ground (arith, rw (lookup, same) at h))
  | inr other ↦
      let rest = all_matches-insert c s id m peers (rw (lookup, other) at h) in
      rw (insert, other) (omega (arith, rest))
]

all_matches-remove :
    (c : List ℕ) (s id : ℕ) (m : Shards) (peers : Map Shards)
    → lookup id peers ≡ some m
    → all_matches c s peers ≡ all_matches c s (remove id peers) + matches c s m
unfolding remove lookup
all_matches-remove c s id m [] h = absurd (ground arith)
all_matches-remove c s id m ((j, m') ∷ peers) h = elim (Bool-cases (j == id)) [
  | inl same ↦
      let e : m' ≡ m = some-injective (rw (lookup, same) at h) in
      rw (remove, same) (ap (λ t. matches c s t + all_matches c s peers) e ∙ omega arith)
  | inr other ↦
      let rest = all_matches-remove c s id m peers (rw (lookup, other) at h) in
      rw (remove, other) (omega (arith, rest))
]

has_key-lookup : (id : ℕ) (peers : Map Shards) → has_key id peers ≡ is_registered (lookup id peers)
unfolding has_key lookup
has_key-lookup id [] = refl
has_key-lookup id ((j, m) ∷ peers) = elim (Bool-cases (j == id)) [
  | inl same ↦ rw same refl
  | inr other ↦ rw other (has_key-lookup id peers)
]

elem-without :
    (id j : ℕ) (xs : List ℕ) → elem j (without id xs) ≡ true → (id ≢ j) × (elem j xs ≡ true)
unfolding elem without
elem-without id j [] h = absurd (ground arith)
elem-without id j (x ∷ xs) h = ground (arith, elem-without id j xs)

-- The idle peers are registered, and the count of a task is how often its shard is among the
-- shards of the registered peers.
pub record Consistent (s : SyncPeers) : Type 0 where
  pub idle_there : (j : ℕ) → elem j s.idler_peers ≡ true → has_key j s.peers ≡ true
  pub counted : Counts (λ c sid. all_matches c sid s.peers) s.tasks

Counts-forget :
    (n : List ℕ → ℕ → ℕ) (id : ℕ) (ts : List Task) → Counts n ts → Counts n (forget_peer id ts)
unfolding forget_peer
Counts-forget n id [] h = tt
Counts-forget n id (t ∷ ts) h = (h.0, Counts-forget n id ts h.1)

either :
    (b : Bool) (p q : Bool × SyncPeers)
    → Consistent p.1
    → Consistent q.1
    → Consistent (if b then p else q).1
either true p q h k = h
either false p q h k = k

module _ (id : ℕ) (s : SyncPeers) (inv : Consistent s) where
  new_peer-Consistent :
      (shards : Shards)
      → lookup id s.peers ≡ none
      → Consistent (record s {
        peers = insert id shards s.peers;
        idler_peers = id ∷ s.idler_peers;
        tasks = add_peer_to_task shards s.tasks;
      })
  unfolding elem
  new_peer-Consistent shards new = record {
    idle_there = λ j h. ground (arith, inv.idle_there j, has_key-insert id j shards s.peers);
    counted =
        Counts-ext _ (λ c sid. all_matches c sid (insert id shards s.peers))
          (λ c sid. sym (all_matches-insert c sid id shards s.peers new))
          (add_peer_to_task shards s.tasks)
          (count_contracts-inc shards (λ c sid. all_matches c sid s.peers) s.tasks inv.counted);
  }

  not_registered : is_registered (lookup id s.peers) ≡ false → lookup id s.peers ≡ none
  not_registered h = elim (Option-cases (lookup id s.peers)) [
    | inl e ↦ e
    | inr (m, e) ↦ absurd (ground (arith, rw e at h))
  ]

  add_peer-Consistent : (shards : Shards) → Consistent (add_peer id shards s).1
  unfolding add_peer
  add_peer-Consistent shards = elim (Bool-cases (is_registered (lookup id s.peers))) [
    | inl there ↦ rw (add_peer, there) inv
    | inr absent ↦
        let new : lookup id s.peers ≡ none = not_registered absent in
        rw (add_peer, absent)
          (either s.closing_peers (false, s) _ inv
            (either (not (need_this_peer s shards)) (false, s) _ inv
              (new_peer-Consistent shards new)))
  ]

  gone_peer-Consistent :
      (shards : Shards)
      → lookup id s.peers ≡ some shards
      → Consistent (record s {
        peers = remove id s.peers;
        idler_peers = without id s.idler_peers;
        tasks = forget_peer id (remove_peer_from_task shards s.tasks);
      })
  gone_peer-Consistent shards there = record {
    idle_there = λ j h.
        let (other, idle) = elem-without id j s.idler_peers h in
        has_key-remove_ne id j s.peers other ∙ inv.idle_there j idle;
    counted =
        Counts-forget (λ c sid. all_matches c sid (remove id s.peers)) id
          (remove_peer_from_task shards s.tasks)
          (count_contracts-dec shards (λ c sid. all_matches c sid (remove id s.peers)) s.tasks
            (Counts-ext (λ c sid. all_matches c sid s.peers) _
              (λ c sid. all_matches-remove c sid id shards s.peers there) s.tasks inv.counted));
  }

  remove_peer-Consistent : Consistent (remove_peer id s).1
  unfolding remove_peer
  remove_peer-Consistent = elim (Option-cases (lookup id s.peers)) [
    | inl absent ↦ rw (remove_peer, absent) inv
    | inr (shards, there) ↦ rw (remove_peer, there) (gone_peer-Consistent shards there)
  ]

  idle_or_new :
      is_registered (lookup id s.peers) ≡ true
      → (j : ℕ) → elem j (id ∷ s.idler_peers) ≡ true
      → has_key j s.peers ≡ true
  unfolding elem
  idle_or_new there j h = elim (Bool-cases (id == j)) [
    | inl same ↦
        let e : id ≡ j = ground arith in
        subst (λ k. has_key k s.peers ≡ true) e (has_key-lookup id s.peers ∙ there)
    | inr other ↦ inv.idle_there j (rw (elem, other) at h)
  ]

  -- AddPeer and RemovePeer, a request to a peer and the end of its answer preserve that the counts
  -- of the tasks are the numbers of times that registered peers have their shards, and that every
  -- idle peer is registered.
  pub peers-Consistent :
      (shards : Shards)
      → Consistent (add_peer id shards s).1
        × Consistent (remove_peer id s).1
        × Consistent (occupy_peer id s)
        × Consistent (release_peer id s)
  unfolding occupy_peer release_peer
  peers-Consistent shards = (add_peer-Consistent shards, remove_peer-Consistent, occupied, released)
    where
      occupied : Consistent (occupy_peer id s)
      occupied = record {
        idle_there = λ j h. inv.idle_there j (elem-without id j s.idler_peers h).1;
        counted = inv.counted;
      }

      released : Consistent (release_peer id s)
      released = elim (Bool-cases (is_registered (lookup id s.peers))) [
        | inl there ↦
            rw (release_peer, there)
              (record { idle_there = idle_or_new there; counted = inv.counted })
        | inr absent ↦ rw (release_peer, absent) inv
      ]
