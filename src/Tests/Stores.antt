-- ===== src/Tests/Stores.antt =====
-- A billy store as the list of its items, a deleted one being none. Empty and oversized items are
-- refused.
use es_node.Prelude.{
  ℕ, zero, suc, ◌≡◌, refl, subst, Bool-cases, true, false, inl, inr, ltb, leb, ◌&&◌, if◌then◌else◌,
  List, [], ◌∷◌, ◌++◌, Option, none, some, length, arith, ◌==◌,
}
use es_node.Outcome.{Outcome, ok, ok-injective, err, blob_not_found}
use es_node.Downloader.DiskCache.{Billy}
use es_node.Downloader.Store.{Laws, TakesFitting}

abbrev pub Items : Type 0
Items = List (Option (List ℕ))

unfoldable pub item_at : ℕ → Items → Outcome (List ℕ)
item_at k [] = err blob_not_found
item_at zero (none ∷ items) = err blob_not_found
item_at zero (some b ∷ items) = ok b
item_at (suc k) (_ ∷ items) = item_at k items

unfoldable pub without_item : ℕ → Items → Items
without_item k [] = []
without_item zero (_ ∷ items) = none ∷ items
without_item (suc k) (item ∷ items) = item ∷ without_item k items

abbrev pub list_store : Billy Items
list_store = record {
  put = λ b s.
      if ltb 0 (length b) && leb (length b) 131072
      then (ok (length s), s ++ some b ∷ [])
      else (err blob_not_found, s);
  get = item_at;
  delete = without_item;
  get_sample = λ id from len s. err blob_not_found;
}

item_at-append : (b : List ℕ) (s : Items) → item_at (length s) (s ++ some b ∷ []) ≡ ok b
unfolding item_at
item_at-append b [] = refl
item_at-append b (item ∷ s) = item_at-append b s

item_at-kept :
    (b : List ℕ) (s : Items) (j : ℕ) (a : List ℕ)
    → item_at j s ≡ ok a
    → item_at j (s ++ some b ∷ []) ≡ ok a
unfolding item_at
item_at-kept b [] j a h = absurd (ground arith)
item_at-kept b (none ∷ s) zero a h = h
item_at-kept b (some c ∷ s) zero a h = h
item_at-kept b (item ∷ s) (suc j) a h = item_at-kept b s j a h

item_at-without :
    (i j : ℕ) (s : Items) → (i == j) ≡ false → item_at j (without_item i s) ≡ item_at j s
unfolding item_at without_item
item_at-without i j [] h = refl
item_at-without zero zero (item ∷ s) h = absurd (ground arith)
item_at-without zero (suc j) (item ∷ s) h = refl
item_at-without (suc i) zero (none ∷ s) h = refl
item_at-without (suc i) zero (some c ∷ s) h = refl
item_at-without (suc i) (suc j) (item ∷ s) h = item_at-without i j s (ground arith)

put_get :
    (b : List ℕ) (s : Items) (id : ℕ)
    → (list_store.put b s).0 ≡ ok id
    → item_at id (list_store.put b s).1 ≡ ok b
put_get b s id h = elim (Bool-cases (ltb 0 (length b) && leb (length b) 131072)) [
  | inl taken ↦ rw taken (
      subst (λ k. item_at k (s ++ some b ∷ []) ≡ ok b) (ok-injective (rw taken at h))
        (item_at-append b s))
  | inr refused ↦ absurd (ground (arith, rw refused at h))
]

put_keeps :
    (b : List ℕ) (s : Items) (id j : ℕ) (a : List ℕ)
    → (list_store.put b s).0 ≡ ok id
    → item_at j s ≡ ok a
    → item_at j (list_store.put b s).1 ≡ ok a
put_keeps b s id j a h g = elim (Bool-cases (ltb 0 (length b) && leb (length b) 131072)) [
  | inl taken ↦ rw taken (item_at-kept b s j a g)
  | inr refused ↦ rw refused g
]

pub list_store-TakesFitting : TakesFitting list_store
list_store-TakesFitting b s some_bytes small =
    let taken : (ltb 0 (length b) && leb (length b) 131072) ≡ true = ground arith in
    (length s, rw taken refl)

pub list_store-Laws : Laws list_store
list_store-Laws = record {
  put_get = λ b s id h. put_get b s id h;
  put_keeps = λ b s id j a h g. put_keeps b s id j a h g;
  delete_keeps = item_at-without;
}
