-- ===== src/Downloader/Positions.antt =====
-- Lists that give each index its data and its metadata (ethstorage/downloader/downloader.go,
-- download): replacing what an index has, and adding an index.
use es_node.Prelude.{
  ℕ, zero, suc, ◌+◌, ◌≡◌, refl, sym, ap, ◌∙◌, true, false, Option, none, some, List, [], ◌∷◌, ◌++◌,
  length, take, drop, drop_append, length-take, pad_to, replicate, ◌==◌, arith, if◌then◌else◌,
}
use es_node.Sync.{elem}
use es_node.Sync.Heal.{Distinct}
use es_node.Downloader.{meta_of, copy_hash, position, change_at}

-- The data and the metadata that lists give an index.
unfoldable pub find_write : ℕ → List ℕ → List (List ℕ) → List (List ℕ) → Option (List ℕ × List ℕ)
find_write idx (i ∷ is) (d ∷ ds) (m ∷ ms) =
    if i == idx then some (d, m) else find_write idx is ds ms
find_write idx [] ds ms = none
find_write idx (i ∷ is) [] ms = none
find_write idx (i ∷ is) (d ∷ ds) [] = none

-- Lists of the same length, with nothing behind the hashes.
abbrev pub Shaped : List ℕ → List (List ℕ) → List (List ℕ) → Type 0
Shaped [] [] [] = Unit
Shaped [] [] (_ ∷ _) = ⊥
Shaped [] (_ ∷ _) ms = ⊥
Shaped (_ ∷ _) [] ms = ⊥
Shaped (_ ∷ _) (_ ∷ _) [] = ⊥
Shaped (i ∷ is) (d ∷ ds) (m ∷ ms) = (drop 24 m ≡ replicate 8 0) × Shaped is ds ms

pad_to-more : (n k : ℕ) (xs : List ℕ) → length xs ≡ n → pad_to (n + k) xs ≡ xs ++ replicate k 0
pad_to-more zero zero [] h = refl
pad_to-more zero (suc k) [] h =
    let e : 0 + suc k ≡ suc (0 + k) = omega arith in
    rw e (ap (λ t. 0 ∷ t) (pad_to-more zero k [] refl))
pad_to-more zero k (x ∷ xs) h = absurd (omega arith)
pad_to-more (suc n) k [] h = absurd (omega arith)
pad_to-more (suc n) k (x ∷ xs) h =
    let e : suc n + k ≡ suc (n + k) = omega arith in
    rw e (ap (λ t. x ∷ t) (pad_to-more n k xs (omega arith)))

position-zero : (idx i : ℕ) (is : List ℕ) → position idx (i ∷ is) ≡ some 0 → (i == idx) ≡ true
unfolding position
position-zero idx i is h = ground arith

position-suc :
    (idx i k : ℕ) (is : List ℕ)
    → position idx (i ∷ is) ≡ some (suc k)
    → ((i == idx) ≡ false) × (position idx is ≡ some k)
unfolding position
position-suc idx i k is h = ground arith

position-none :
    (idx i : ℕ) (is : List ℕ)
    → position idx (i ∷ is) ≡ none
    → ((i == idx) ≡ false) × (position idx is ≡ none)
unfolding position
position-none idx i is h = ground arith

module _ (hash : List ℕ) (full : length hash ≡ 32) where
  hash_bytes : length (take 24 hash) ≡ 24
  hash_bytes = omega (arith, length-take 24 hash)

  meta_of-eq : meta_of hash ≡ take 24 hash ++ replicate 8 0
  unfolding meta_of
  meta_of-eq = pad_to-more 24 8 (take 24 hash) hash_bytes

  copy_hash-eq : (m : List ℕ) → drop 24 m ≡ replicate 8 0 → copy_hash hash m ≡ meta_of hash
  copy_hash-eq m h = ap (λ t. take 24 hash ++ t) h ∙ sym meta_of-eq

  drop-meta_of : drop 24 (meta_of hash) ≡ replicate 8 0
  drop-meta_of = rw meta_of-eq (drop_append 24 (take 24 hash) (replicate 8 0) (sym hash_bytes))

  -- The index is there already.
  pub find_write-change_at :
      (idx : ℕ) (d : List ℕ) (k : ℕ) (is : List ℕ) (ds ms : List (List ℕ))
      → position idx is ≡ some k
      → Shaped is ds ms
      → Shaped is (change_at k (λ _. d) ds) (change_at k (copy_hash hash) ms)
        × ((j : ℕ)
            → find_write j is (change_at k (λ _. d) ds) (change_at k (copy_hash hash) ms)
              ≡ (if idx == j then some (d, meta_of hash) else find_write j is ds ms))
  unfolding position change_at find_write
  find_write-change_at idx d zero (i ∷ is) (c ∷ ds) (m ∷ ms) p s =
      let here = position-zero idx i is p in
      let copied = copy_hash-eq m s.0 in
      ((ap (drop 24) copied ∙ drop-meta_of, s.1), λ j. rw copied (ground arith))
  find_write-change_at idx d (suc k) (i ∷ is) (c ∷ ds) (m ∷ ms) p s =
      let later = position-suc idx i k is p in
      let ih = find_write-change_at idx d k is ds ms later.1 s.1 in
      ((s.0, ih.0), λ j. rw (ih.1 j) (ground (arith, later.0)))
  find_write-change_at idx d k [] [] [] p s = absurd (ground arith)
  find_write-change_at idx d k [] [] (m ∷ ms) p s = absurd s
  find_write-change_at idx d k [] (c ∷ ds) ms p s = absurd s
  find_write-change_at idx d k (i ∷ is) [] ms p s = absurd s
  find_write-change_at idx d k (i ∷ is) (c ∷ ds) [] p s = absurd s

  -- The index is new.
  pub find_write-append :
      (idx : ℕ) (d : List ℕ) (is : List ℕ) (ds ms : List (List ℕ))
      → position idx is ≡ none
      → Shaped is ds ms
      → Shaped (is ++ idx ∷ []) (ds ++ d ∷ []) (ms ++ meta_of hash ∷ [])
        × ((j : ℕ)
            → find_write j (is ++ idx ∷ []) (ds ++ d ∷ []) (ms ++ meta_of hash ∷ [])
              ≡ (if idx == j then some (d, meta_of hash) else find_write j is ds ms))
  unfolding find_write
  find_write-append idx d [] [] [] p s = ((drop-meta_of, tt), λ j. refl)
  find_write-append idx d [] [] (m ∷ ms) p s = absurd s
  find_write-append idx d [] (c ∷ ds) ms p s = absurd s
  find_write-append idx d (i ∷ is) [] ms p s = absurd s
  find_write-append idx d (i ∷ is) (c ∷ ds) [] p s = absurd s
  find_write-append idx d (i ∷ is) (c ∷ ds) (m ∷ ms) p s =
      let later = position-none idx i is p in
      let ih = find_write-append idx d is ds ms later.1 s.1 in
      ((s.0, ih.0), λ j. rw (ih.1 j) (ground (arith, later.0)))

elem-append :
    (j idx : ℕ) (is : List ℕ)
    → elem j is ≡ false
    → (idx == j) ≡ false
    → elem j (is ++ idx ∷ []) ≡ false
unfolding elem
elem-append j idx [] h k = ground arith
elem-append j idx (i ∷ is) h k = ground (arith, elem-append j idx is)

pub Distinct-append :
    (idx : ℕ) (is : List ℕ) → position idx is ≡ none → Distinct is → Distinct (is ++ idx ∷ [])
unfolding elem
Distinct-append idx [] p d = (refl, tt)
Distinct-append idx (i ∷ is) p d =
    let later = position-none idx i is p in
    (elem-append i idx is d.0 (ground (arith, later.0)), Distinct-append idx is later.1 d.1)
