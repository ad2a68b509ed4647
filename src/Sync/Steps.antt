-- ===== src/Sync/Steps.antt =====
-- The handler of range answers as a step of the sync
-- (ethstorage/p2p/protocol/syncclient.go, OnBlobsByRange and onResult).
use es_node.Prelude.{
  ℕ, ◌≤◌, ◌<◌, ◌≡◌, refl, sym, ap, subst, Bool, true, false, ◌&&◌, List, [], ◌∷◌, ◌++◌, Option,
  none, some, leb, ◌==◌, arith, Bool-cases, ◌⊎◌, inl, inr,
}
use es_node.Outcome.{Outcome, ok, err, panic, >>=-eq-ok, then_do, ok-injective}
use es_node.Externals.{Externals}
use es_node.Manager.{ShardManager}
use es_node.Storage.{StorageManager, commit_encoded_blob, local_kv_metas}
use es_node.Storage.Commits.{commit_each, commit_blobs, lens_differ, encode_all}
use es_node.Sync.{SubTask, Task, elem, sort, nth_sub}
use es_node.Sync.Heal.{Distinct}
use es_node.Sync.Coverage.{Inv}
use es_node.Sync.Answers.{settle_range-Inv}
use es_node.Sync.Reach.{Step, range_answer}
use es_node.Sync.Client.{
  BlobPayload, BlobsByRangeRequest, blobs_in_range, blob_indices, Accepted, accept, mark_stateless,
  sound_blob, accept_all, on_result, after_range, on_blobs_by_range,
}

-- A list without some of its elements.
abbrev pub Sub : List ℕ → List ℕ → Type 0
Sub xs [] = xs ≡ []
Sub xs (y ∷ ys) = Sub xs ys ⊎ ((zs : List ℕ) × (xs ≡ y ∷ zs) × Sub zs ys)

nil-Sub : (ys : List ℕ) → Sub [] ys
nil-Sub [] = refl
nil-Sub (y ∷ ys) = inl (nil-Sub ys)

trans-Sub : (xs ys zs : List ℕ) → Sub xs ys → Sub ys zs → Sub xs zs
trans-Sub xs ys [] s e = subst (Sub xs) e s
trans-Sub xs ys (z ∷ zs) s (inl h) = inl (trans-Sub xs ys zs s h)
trans-Sub xs ys (z ∷ zs) s (inr (ws, e, h)) = elim (subst (Sub xs) e s) [
  | inl out ↦ inl (trans-Sub xs ws zs out h)
  | inr (vs, e', rest) ↦ inr (vs, e', trans-Sub vs ws zs rest h)
]

elem-Sub : (xs ys : List ℕ) (j : ℕ) → Sub xs ys → elem j xs ≡ true → elem j ys ≡ true
unfolding elem
elem-Sub xs [] j s h = subst (λ l. elem j l ≡ true) s h
elem-Sub xs (y ∷ ys) j (inl s) h = ground (arith, elem-Sub xs ys j s h)
elem-Sub xs (y ∷ ys) j (inr (zs, e, s)) h =
    let h' : elem j (y ∷ zs) ≡ true = subst (λ l. elem j l ≡ true) e h in
    ground (arith, elem-Sub zs ys j s)

not_elem-Sub : (xs ys : List ℕ) (j : ℕ) → Sub xs ys → elem j ys ≡ false → elem j xs ≡ false
not_elem-Sub xs ys j s h = elim (Bool-cases (elem j xs)) [
  | inl there ↦ absurd (ground (arith, elem-Sub xs ys j s there))
  | inr out ↦ out
]

Distinct-Sub : (xs ys : List ℕ) → Sub xs ys → Distinct ys → Distinct xs
Distinct-Sub xs [] s d = subst Distinct (sym s) tt
Distinct-Sub xs (y ∷ ys) (inl s) d = Distinct-Sub xs ys s d.1
Distinct-Sub xs (y ∷ ys) (inr (zs, e, s)) d =
    subst Distinct (sym e) (not_elem-Sub zs ys y s d.0, Distinct-Sub zs ys s d.1)

-- The indices that CommitBlobs inserts are among those that it was given.
module _ (kv : ℕ) (kvs : List ℕ) (e : List ℕ) (es : List (Option (List ℕ))) (c : List ℕ)
    (cs : List (List ℕ)) (m : List ℕ) (ms : List (List ℕ)) (sm : ShardManager)
    (onward : (s : ShardManager) (l : List ℕ) → (commit_each kvs es cs ms s).0 ≡ ok l → Sub l kvs)
    (inserted : List ℕ) where
  commit_each-step :
      (r : Outcome (Unit {0}))
      → (commit_encoded_blob kv e c m sm).0 ≡ r
      → (commit_each (kv ∷ kvs) (some e ∷ es) (c ∷ cs) (m ∷ ms) sm).0 ≡ ok inserted
      → Sub inserted (kv ∷ kvs)
  unfolding commit_each
  commit_each-step (ok u) q h =
      let (l, made, same) =
        >>=-eq-ok (commit_each kvs es cs ms (commit_encoded_blob kv e c m sm).1).0
          (λ l. ok (kv ∷ l)) (rw (commit_each, q) at h) in
      inr (l, sym (ok-injective same), onward (commit_encoded_blob kv e c m sm).1 l made)
  commit_each-step (err f) q h =
      inl (onward (commit_encoded_blob kv e c m sm).1 inserted (rw (commit_each, q) at h))
  commit_each-step panic q h = absurd (ground (arith, rw (commit_each, q) at h))

nothing-Sub : (l ys : List ℕ) → ok [] ≡ ok l → Sub l ys
nothing-Sub l ys h = subst (λ t. Sub t ys) (ok-injective h) (nil-Sub ys)

commit_each-Sub :
    (kvs : List ℕ) (es : List (Option (List ℕ))) (cs ms : List (List ℕ)) (sm : ShardManager)
    (inserted : List ℕ)
    → (commit_each kvs es cs ms sm).0 ≡ ok inserted
    → Sub inserted kvs
unfolding commit_each
commit_each-Sub [] es cs ms sm l h = nothing-Sub l [] h
commit_each-Sub (kv ∷ kvs) [] cs ms sm l h = nothing-Sub l (kv ∷ kvs) h
commit_each-Sub (kv ∷ kvs) (some e ∷ es) [] ms sm l h = nothing-Sub l (kv ∷ kvs) h
commit_each-Sub (kv ∷ kvs) (some e ∷ es) (c ∷ cs) [] sm l h = nothing-Sub l (kv ∷ kvs) h
commit_each-Sub (kv ∷ kvs) (some e ∷ es) (c ∷ cs) (m ∷ ms) sm l h =
    commit_each-step kv kvs e es c cs m ms sm (λ s k g. commit_each-Sub kvs es cs ms s k g) l
      (commit_encoded_blob kv e c m sm).0 refl h
commit_each-Sub (kv ∷ kvs) (none ∷ es) [] ms sm l h = nothing-Sub l (kv ∷ kvs) h
commit_each-Sub (kv ∷ kvs) (none ∷ es) (c ∷ cs) [] sm l h = nothing-Sub l (kv ∷ kvs) h
commit_each-Sub (kv ∷ kvs) (none ∷ es) (c ∷ cs) (m ∷ ms) sm l h =
    inl (commit_each-Sub kvs es cs ms sm l h)

then_do-ok :
    {S A B : Type 0} (r : Outcome A × S) (k : A → S → Outcome B × S) (b : B)
    → (then_do r k).0 ≡ ok b
    → (a : A) × (r.0 ≡ ok a) × ((k a r.1).0 ≡ ok b)
then_do-ok (ok a, s) k b h = (a, refl, h)
then_do-ok (err e, s) k b h = absurd (ground arith)
then_do-ok (panic, s) k b h = absurd (ground arith)

module _ (x : Externals) where
  commit_blobs-Sub :
      (kvs : List ℕ) (bs cs : List (List ℕ)) (s : StorageManager) (inserted : List ℕ)
      → (commit_blobs x kvs bs cs s).0 ≡ ok inserted
      → Sub inserted kvs
  unfolding commit_blobs
  commit_blobs-Sub kvs bs cs s inserted h = elim (Bool-cases (lens_differ kvs bs cs)) [
    | inl differ ↦ absurd (ground (arith, rw differ at h))
    | inr same ↦
        let (encoded, e, h') =
          then_do-ok (encode_all x s.shard_manager kvs bs cs, s) _ inserted (rw same at h) in
        let (metas, m, h'') = then_do-ok (local_kv_metas s kvs, s) _ inserted h' in
        commit_each-Sub kvs encoded cs metas s.shard_manager inserted h''
  ]

  accept_all-Sub :
      (s : StorageManager) (bs : List BlobPayload) (a : Accepted)
      → accept_all x s bs ≡ ok a
      → Sub a.indices (blob_indices bs)
  unfolding accept_all
  accept_all-Sub s [] a h = ap (λ (t : Accepted). t.indices) (sym (ok-injective h))
  accept_all-Sub s (b ∷ bs) a h =
      let (o, sound, h1) = >>=-eq-ok (sound_blob x s b) _ h in
      let (rest, got, h2) = >>=-eq-ok (accept_all x s bs) _ h1 in
      accepted o rest (ok-injective h2) (accept_all-Sub s bs rest got)
    where
      accepted :
          (o : Option (List ℕ)) (rest : Accepted)
          → (elim o [ none ↦ rest | some decoded ↦ accept b decoded rest ]) ≡ a
          → Sub rest.indices (blob_indices bs)
          → Sub a.indices (b.blob_index ∷ blob_indices bs)
      accepted none rest e h = inl (subst (λ (t : Accepted). Sub t.indices (blob_indices bs)) e h)
      accepted (some decoded) rest e h =
          inr (rest.indices, sym (ap (λ (t : Accepted). t.indices) e), h)

  on_result-Sub :
      (bs : List BlobPayload) (s : StorageManager) (inserted : List ℕ)
      → (on_result x bs s).0 ≡ ok inserted
      → Sub inserted (blob_indices bs)
  unfolding on_result
  on_result-Sub bs s inserted h =
      let (a, e, h') = then_do-ok (accept_all x s bs, s) _ inserted h in
      trans-Sub inserted a.indices (blob_indices bs)
        (commit_blobs-Sub a.indices a.decoded a.commits s inserted h') (accept_all-Sub s bs a e)

blobs_in_range-Sub :
    (origin limit : ℕ) (bs : List BlobPayload)
    → Sub (blob_indices (blobs_in_range origin limit bs)) (blob_indices bs)
unfolding blobs_in_range
blobs_in_range-Sub origin limit [] = refl
blobs_in_range-Sub origin limit (b ∷ bs) =
    elim (Bool-cases (leb origin b.blob_index && leb b.blob_index limit)) [
      | inl inside ↦ rw inside (
          inr (
            blob_indices (blobs_in_range origin limit bs),
            refl,
            blobs_in_range-Sub origin limit bs,
          ))
      | inr outside ↦ rw outside (inl (blobs_in_range-Sub origin limit bs))
    ]

blobs_in_range-bounds :
    (origin limit : ℕ) (bs : List BlobPayload) (j : ℕ)
    → elem j (blob_indices (blobs_in_range origin limit bs)) ≡ true
    → (origin ≤ j) × (j ≤ limit)
unfolding blobs_in_range elem
blobs_in_range-bounds origin limit [] j h = absurd (ground arith)
blobs_in_range-bounds origin limit (b ∷ bs) j h =
    elim (Bool-cases (leb origin b.blob_index && leb b.blob_index limit)) [
      | inl inside ↦
          let h' = rw (blobs_in_range, inside) at h in
          elim (Bool-cases (b.blob_index == j)) [
            | inl same ↦ ground arith
            | inr other ↦ blobs_in_range-bounds origin limit bs j (rw other at h')
          ]
      | inr outside ↦ blobs_in_range-bounds origin limit bs j (rw (blobs_in_range, outside) at h)
    ]

-- A handler for which `r` was inserted left the task as it was, took peers out of it, or made one
-- step with what was inserted, in which no index stands twice.
abbrev pub StepOf : Outcome (List ℕ) → Task → List ℕ → Outcome Task → Type 0
StepOf r t c (ok t') =
    (t' ≡ t)
    ⊎ (((peers : List ℕ) × (t' ≡ record t { stateless_peers = peers }))
        ⊎ ((inserted : List ℕ) × (r ≡ ok inserted)
            × Distinct inserted
            × Step t c t' (inserted ++ c)))
StepOf r t c (err e) = ⊥
StepOf r t c panic = r ≡ panic

mark_stateless-StepOf :
    (r : Outcome (List ℕ)) (known : Bool) (peer : ℕ) (t : Task) (c : List ℕ)
    → StepOf r t c (ok (mark_stateless known peer t))
mark_stateless-StepOf r true peer t c = inr (inl (peer ∷ t.stateless_peers, refl))
mark_stateless-StepOf r false peer t c = inl refl

module _ (x : Externals) (req : BlobsByRangeRequest) (known : Bool) (st : SubTask) (t : Task)
    (c : List ℕ) (at : nth_sub req.sub_idx t.sub_tasks ≡ some st) (from : req.origin ≡ st.next)
    (to : req.limit < st.last) (lo hi : ℕ) (inv : Inv lo hi c t) where
  after_range-StepOf :
      (inserted : List ℕ)
      → Distinct inserted
      → ((j : ℕ) → elem j inserted ≡ true → (req.origin ≤ j) × (j ≤ req.limit))
      → StepOf (ok inserted) t c (after_range x req known st inserted t)
  unfolding after_range
  after_range-StepOf inserted distinct asked = sorted (sort inserted) refl
    where
      sorted :
          (l : List ℕ)
          → sort inserted ≡ l
          → StepOf (ok inserted) t c (after_range x req known st inserted t)
      sorted [] e = rw (after_range, e) (mark_stateless-StepOf _ known req.peer t c)
      sorted (y ∷ ys) e =
          let inside : (j : ℕ) → elem j inserted ≡ true → (st.next ≤ j) × (j < st.last) =
            λ j h. (omega (arith, asked j h), omega (arith, asked j h)) in
          let (t', settled, kept) =
            settle_range-Inv c t req.sub_idx st inserted y ys at distinct inside e lo hi inv in
          rw (after_range, e, settled)
            (inr (
              inr (
                inserted,
                refl,
                distinct,
                range_answer req.sub_idx st inserted y ys at inside e settled refl,
              )))

  -- For a request of a sub task that starts at its next index and ends before its last one, in a
  -- task that has lost no index, the handler of an answer that repeats no index leaves the task as
  -- it was, takes a peer out of it, or makes one step of the sync with the indices that onResult
  -- inserted of the blobs in the range. It panics only if onResult does.
  pub on_blobs_by_range-StepOf :
      (blobs : List BlobPayload) (s : StorageManager)
      → Distinct (blob_indices blobs)
      → StepOf
          (on_result x (blobs_in_range req.origin req.limit blobs) s).0
          t
          c
          (on_blobs_by_range x req known st blobs t s).0
  unfolding on_blobs_by_range
  on_blobs_by_range-StepOf blobs s distinct =
      answered (blobs_in_range req.origin req.limit blobs) refl
    where
      resulting :
          (b : BlobPayload) (bs : List BlobPayload)
          → blobs_in_range req.origin req.limit blobs ≡ b ∷ bs
          → (r : Outcome (List ℕ)) → (on_result x (b ∷ bs) s).0 ≡ r
          → StepOf
              (on_result x (blobs_in_range req.origin req.limit blobs) s).0
              t
              c
              (on_blobs_by_range x req known st blobs t s).0
      resulting b bs e (ok inserted) q =
          let sub = on_result-Sub x (b ∷ bs) s inserted q in
          let inner : Sub (blob_indices (b ∷ bs)) (blob_indices blobs) =
            subst (λ l. Sub (blob_indices l) (blob_indices blobs)) e
              (blobs_in_range-Sub req.origin req.limit blobs) in
          rw (on_blobs_by_range, e, q)
            (after_range-StepOf inserted
              (Distinct-Sub inserted (blob_indices blobs)
                (trans-Sub inserted (blob_indices (b ∷ bs)) (blob_indices blobs) sub inner)
                distinct)
              (λ j h. blobs_in_range-bounds req.origin req.limit blobs j (
                subst (λ l. elem j (blob_indices l) ≡ true) (sym e)
                  (elem-Sub inserted (blob_indices (b ∷ bs)) j sub h))))
      resulting b bs e (err f) q = rw (on_blobs_by_range, e, q) (inl refl)
      resulting b bs e panic q = rw (on_blobs_by_range, e, q) refl

      answered :
          (l : List BlobPayload)
          → blobs_in_range req.origin req.limit blobs ≡ l
          → StepOf
              (on_result x (blobs_in_range req.origin req.limit blobs) s).0
              t
              c
              (on_blobs_by_range x req known st blobs t s).0
      answered [] e = rw (on_blobs_by_range, e) (mark_stateless-StepOf _ known req.peer t c)
      answered (b ∷ bs) e = resulting b bs e (on_result x (b ∷ bs) s).0 refl
