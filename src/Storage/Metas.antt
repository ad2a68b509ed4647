-- ===== src/Storage/Metas.antt =====
-- ethstorage/storage_manager.go, updateLocalMetas: which of the known metadata change.
use es_node.Prelude.{
  ℕ, zero, suc, ◌+◌, ◌-◌, ◌<◌, ◌≡◌, ◌≢◌, refl, ap, subst, ◌∙◌, List, [], ◌∷◌, length, some, arith,
}
use es_node.Outcome.{Outcome, ok, err, panic, >>=-eq-ok}
use es_node.Manager.{Map, lookup, insert}
use es_node.Manager.Maps.{lookup-insert_self, lookup-insert_ne}
use es_node.Storage.{
  StorageManager, contract_meta, remove, remove_range, set_metas, update_local_metas,
}

pub lookup-remove_ne :
    {A : Type 0} (k j : ℕ) (m : Map A) → k ≢ j → lookup j (remove k m) ≡ lookup j m
unfolding lookup remove
lookup-remove_ne k j [] ne = refl
lookup-remove_ne k j ((i, v) ∷ m) ne = ground (arith, lookup-remove_ne k j m ne)

lookup-remove_range :
    {A : Type 0} (n i j : ℕ) (m : Map A) → j < i → lookup j (remove_range i n m) ≡ lookup j m
unfolding remove_range
lookup-remove_range zero i j m lt = refl
lookup-remove_range (suc n) i j m lt =
    lookup-remove_range n (i + 1) j (remove i m) (omega arith)
    ∙ lookup-remove_ne i j m (omega arith)

-- An index is not in a list.
abbrev pub NotIn : ℕ → List ℕ → Type 0
NotIn j [] = Unit
NotIn j (i ∷ is) = (i ≢ j) × NotIn j is

lookup-set_metas :
    (is : List ℕ) (cs : List (List ℕ)) (m m' : Map (List ℕ)) (j : ℕ)
    → set_metas is cs m ≡ ok m'
    → NotIn j is
    → lookup j m' ≡ lookup j m
unfolding set_metas
lookup-set_metas [] cs m m' j h out =
    subst (λ t. lookup j t ≡ lookup j m) (ok-injective m m' h) refl
  where
    ok-injective : (a b : Map (List ℕ)) → ok a ≡ ok b → a ≡ b
    ok-injective a b q = ap map_or q
      where
        map_or : Outcome (Map (List ℕ)) → Map (List ℕ)
        map_or (ok t) = t
        map_or (err e) = []
        map_or panic = []
lookup-set_metas (i ∷ is) [] m m' j h out = absurd (ground arith)
lookup-set_metas (i ∷ is) (c ∷ cs) m m' j h out =
    let (meta, e, rest) =
      >>=-eq-ok (contract_meta i c) (λ meta. set_metas is cs (insert i meta m)) h in
    lookup-set_metas is cs (insert i meta m) m' j rest out.1 ∙ lookup-insert_ne i j meta m out.0

module _ (is : List ℕ) (cs : List (List ℕ)) (s : StorageManager) (m : Map (List ℕ))
    (encoded : set_metas is cs s.blob_metas ≡ ok m) (j : ℕ) (counted : j < s.kv_entry_count) where
  lookup-update : lookup j (update_local_metas is cs s).1.blob_metas ≡ lookup j m
  unfolding update_local_metas
  lookup-update =
      rw encoded (lookup-remove_range (length m - s.kv_entry_count) s.kv_entry_count j m counted)

  -- When the indices can be encoded, updateLocalMetas keeps the metadata of every entry below the
  -- entry count whose index is not in the list.
  pub update_local_metas-keeps :
      NotIn j is → lookup j (update_local_metas is cs s).1.blob_metas ≡ lookup j s.blob_metas
  update_local_metas-keeps out = lookup-update ∙ lookup-set_metas is cs s.blob_metas m j encoded out

module _ (i : ℕ) (is : List ℕ) (c : List ℕ) (cs : List (List ℕ)) (s : StorageManager)
    (m : Map (List ℕ)) (encoded : set_metas (i ∷ is) (c ∷ cs) s.blob_metas ≡ ok m)
    (counted : i < s.kv_entry_count) (once : NotIn i is) where
  -- When the indices can be encoded and the first one does not occur again and is below the entry
  -- count, updateLocalMetas gives it the metadata with its index and its commit.
  pub update_local_metas-sets :
      (meta : List ℕ) × (contract_meta i c ≡ ok meta)
      × (lookup i (update_local_metas (i ∷ is) (c ∷ cs) s).1.blob_metas ≡ some meta)
  unfolding set_metas
  update_local_metas-sets =
      let (meta, e, rest) =
        >>=-eq-ok (contract_meta i c) (λ meta. set_metas is cs (insert i meta s.blob_metas))
          encoded in
      (
        meta,
        e,
        lookup-update (i ∷ is) (c ∷ cs) s m encoded i counted
            ∙ lookup-set_metas is cs (insert i meta s.blob_metas) m i rest once
            ∙ lookup-insert_self i meta s.blob_metas,
      )
