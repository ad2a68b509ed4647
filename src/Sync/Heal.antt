-- ===== src/Sync/Heal.antt =====
-- Lemmas on the heal task's map, on sets of indices and on sorted indices
-- (ethstorage/p2p/protocol/task.go).
use es_node.Prelude.{
  ℕ, zero, suc, ◌+◌, ◌-◌, ◌≤◌, ◌<◌, ◌≡◌, ◌≢◌, refl, ◌∙◌, Bool, true, false, ◌&&◌, List, [], ◌∷◌,
  ◌++◌, ltb, leb, ◌==◌, if◌then◌else◌, arith, Bool-cases, ◌⊎◌, inl, inr,
}
use es_node.Outcome.{ok}
use es_node.Manager.{Map, insert, insert_sorted}
use es_node.Storage.{remove}
use es_node.Sync.{
  has_key, elem, heal_remove, heal_refresh, has_index_in_range, sort, last_of, missing_from,
}

pub has_key-insert :
    {A : Type 0} (k j : ℕ) (v : A) (m : Map A)
    → has_key j (insert k v m) ≡ (if k == j then true else has_key j m)
unfolding has_key insert
has_key-insert k j v [] = refl
has_key-insert k j v ((i, w) ∷ m) = ground (has_key-insert k j v m, arith)

pub has_key-remove_ne :
    {A : Type 0} (k j : ℕ) (m : Map A) → k ≢ j → has_key j (remove k m) ≡ has_key j m
unfolding has_key remove
has_key-remove_ne k j [] ne = refl
has_key-remove_ne k j ((i, w) ∷ m) ne = ground (has_key-remove_ne k j m ne, arith)

pub elem-append_left : (j : ℕ) (xs ys : List ℕ) → elem j xs ≡ true → elem j (xs ++ ys) ≡ true
unfolding elem
elem-append_left j [] ys h = absurd (ground arith)
elem-append_left j (x ∷ xs) ys h = ground (arith, elem-append_left j xs ys)

pub elem-append_right : (j : ℕ) (xs ys : List ℕ) → elem j ys ≡ true → elem j (xs ++ ys) ≡ true
unfolding elem
elem-append_right j [] ys h = h
elem-append_right j (x ∷ xs) ys h = ground (arith, elem-append_right j xs ys h)

pub has_key-refresh_kept :
    (t : ℕ) (is : List ℕ) (m : Map ℕ) (j : ℕ)
    → has_key j m ≡ true
    → has_key j (heal_refresh t is m) ≡ true
unfolding heal_refresh
has_key-refresh_kept t [] m j h = h
has_key-refresh_kept t (i ∷ is) m j h =
    has_key-refresh_kept t is (insert i t m) j (ground (has_key-insert i j t m, arith))

pub has_key-refresh_new :
    (t : ℕ) (is : List ℕ) (m : Map ℕ) (j : ℕ)
    → elem j is ≡ true
    → has_key j (heal_refresh t is m) ≡ true
unfolding heal_refresh elem
has_key-refresh_new t [] m j h = absurd (ground arith)
has_key-refresh_new t (i ∷ is) m j h = elim (Bool-cases (i == j)) [
  | inl same ↦ has_key-refresh_kept t is (insert i t m) j (ground (has_key-insert i j t m, arith))
  | inr other ↦ has_key-refresh_new t is (insert i t m) j (rw other at h)
]

-- An index that was not removed is still there.
pub has_key-heal_remove :
    (is : List ℕ) (m : Map ℕ) (j : ℕ)
    → has_key j m ≡ true
    → elem j is ≡ false
    → has_key j (heal_remove is m) ≡ true
unfolding heal_remove elem
has_key-heal_remove [] m j h out = h
has_key-heal_remove (i ∷ is) m j h out = elim (Bool-cases (i == j)) [
  | inl same ↦ absurd (ground (arith, rw same at out))
  | inr other ↦
      has_key-heal_remove is (remove i m) j (has_key-remove_ne i j m (λ e. ground arith) ∙ h)
        (rw other at out)
]

-- The least index of the heal task in a range, or the end of the range.
pub record Least (first next : ℕ) (m : Map ℕ) (r : Bool × ℕ) : Type 0 where
  pub to_next : r.1 ≤ next
  pub from_first : first ≤ next → first ≤ r.1
  pub below : (j : ℕ) → has_key j m ≡ true → first ≤ j → j < next → (r.0 ≡ true) × (r.1 ≤ j)

pub has_index_in_range-Least :
    (first next : ℕ) (m : Map ℕ) → Least first next m (has_index_in_range first next m)
unfolding has_index_in_range has_key
has_index_in_range-Least first next [] = record {
  to_next = omega arith;
  from_first = λ h. h;
  below = λ j h a b. absurd (ground arith);
}
has_index_in_range-Least first next ((i, t) ∷ m) =
    let r = has_index_in_range-Least first next m in
    elim (Bool-cases (ltb i next && leb first i)) [
      | inl inside ↦ rw inside (record {
        to_next = ground (arith, r.to_next);
        from_first = λ h. ground (arith, r.from_first h);
        below = λ j h a b. ground (arith, r.below j);
      })
      | inr outside ↦ rw outside (record {
        to_next = r.to_next;
        from_first = r.from_first;
        below = λ j h a b. ground (arith, r.below j);
      })
    ]

-- The numbers ascend strictly, from n on.
abbrev pub Ascending : ℕ → List ℕ → Type 0
Ascending n [] = Unit
Ascending n (x ∷ xs) = (n ≤ x) × Ascending (x + 1) xs

abbrev end_of : ℕ → List ℕ → ℕ
end_of n [] = n
end_of n (x ∷ xs) = end_of (x + 1) xs

end_of-last_of : (n x : ℕ) (xs : List ℕ) → end_of n (x ∷ xs) ≡ last_of x xs + 1
end_of-last_of n x [] = refl
end_of-last_of n x (y ∷ ys) = end_of-last_of (x + 1) y ys

last_of-ge : (n x : ℕ) (xs : List ℕ) → Ascending n (x ∷ xs) → n ≤ last_of x xs
last_of-ge n x [] a = a.0
last_of-ge n x (y ∷ ys) a = omega (arith, last_of-ge (x + 1) y ys a.1, a.0)

-- What the loop of OnBlobsByRange finds: each index of the range was inserted or is missing.
record Found (count n : ℕ) (l : List ℕ) : Type 0 where
  missing : List ℕ
  returned : missing_from count n l ≡ ok missing
  found : (j : ℕ) → n ≤ j → j < end_of n l → (elem j l ≡ true) ⊎ (elem j missing ≡ true)

module _ (j n : ℕ) (ms : List ℕ) where
  found_here :
      (x : ℕ) (xs : List ℕ)
      → x ≡ n
      → (n + 1 ≤ j → (elem j xs ≡ true) ⊎ (elem j ms ≡ true))
      → n ≤ j
      → (elem j (x ∷ xs) ≡ true) ⊎ (elem j ms ≡ true)
  unfolding elem
  found_here x xs e rest le = elim (Bool-cases (x == j)) [
    | inl same ↦ inl (rw same)
    | inr other ↦ elim (rest (ground arith)) [ inl h ↦ inl (rw other h) | inr h ↦ inr h ]
  ]

  found_later :
      (l : List ℕ)
      → (n + 1 ≤ j → (elem j l ≡ true) ⊎ (elem j ms ≡ true))
      → n ≤ j
      → (elem j l ≡ true) ⊎ (elem j (n ∷ ms) ≡ true)
  unfolding elem
  found_later l rest le = elim (Bool-cases (n == j)) [
    | inl same ↦ inr (rw same)
    | inr other ↦ elim (rest (ground arith)) [ inl h ↦ inl h | inr h ↦ inr (rw other h) ]
  ]

missing_from-Found :
    (count n : ℕ) (l : List ℕ) → Ascending n l → n + count ≡ end_of n l → Found count n l
unfolding missing_from
missing_from-Found zero n l a e = record {
  missing = [];
  returned = refl;
  found = λ j p q. absurd (omega arith);
}
missing_from-Found (suc count) n [] a e = absurd (omega arith)
missing_from-Found (suc count) n (x ∷ xs) a e = elim (Bool-cases (x == n)) [
  | inl same ↦
      let s : x ≡ n = ground arith in
      let e' = rw s at e in
      let r = missing_from-Found count (n + 1) xs (rw s at a.1) (omega arith) in
      record {
        missing = r.missing;
        returned = rw same r.returned;
        found = λ j p q. found_here j n r.missing x xs s (λ k. r.found j k (rw s at q)) p;
      }
  | inr other ↦
      let before : ltb n x ≡ true = ground (arith, a.0) in
      let r = missing_from-Found count (n + 1) (x ∷ xs) (ground (arith, a.0), a.1) (omega arith) in
      record {
        missing = n ∷ r.missing;
        returned = rw (other, before, r.returned);
        found = λ j p q. found_later j n r.missing (x ∷ xs) (λ k. r.found j k q) p;
      }
]

-- The loop as it is called: for ascending indices from n on it returns, and each index up to the
-- last one was inserted or is missing.
pub missing_from-last :
    (n x : ℕ) (xs : List ℕ)
    → Ascending n (x ∷ xs)
    → (ms : List ℕ) × (missing_from (last_of x xs + 1 - n) n (x ∷ xs) ≡ ok ms)
      × ((j : ℕ) → n ≤ j → j ≤ last_of x xs → (elem j (x ∷ xs) ≡ true) ⊎ (elem j ms ≡ true))
missing_from-last n x xs a =
    let r =
      missing_from-Found (last_of x xs + 1 - n) n (x ∷ xs) a
        (omega (arith, end_of-last_of n x xs, last_of-ge n x xs a)) in
    (r.missing, r.returned, λ j p q. r.found j p (omega (arith, end_of-last_of n x xs)))

insert_sorted-Ascending :
    (n k : ℕ) (l : List ℕ)
    → Ascending n l
    → n ≤ k
    → elem k l ≡ false
    → Ascending n (insert_sorted k l)
unfolding insert_sorted elem
insert_sorted-Ascending n k [] a le out = (le, tt)
insert_sorted-Ascending n k (x ∷ xs) a le out = elim (Bool-cases (leb k x)) [
  | inl front ↦ rw front (le, (ground arith, a.1))
  | inr behind ↦
      rw behind (a.0, insert_sorted-Ascending (x + 1) k xs a.1 (ground arith) (ground arith))
]

pub elem-insert_sorted :
    (j k : ℕ) (l : List ℕ) → elem j (insert_sorted k l) ≡ (if k == j then true else elem j l)
unfolding insert_sorted elem
elem-insert_sorted j k [] = refl
elem-insert_sorted j k (x ∷ xs) = ground (elem-insert_sorted j k xs, arith)

pub elem-sort : (j : ℕ) (xs : List ℕ) → elem j (sort xs) ≡ elem j xs
unfolding sort elem
elem-sort j [] = refl
elem-sort j (x ∷ xs) = ground (elem-insert_sorted j x (sort xs), elem-sort j xs, arith)

-- No index occurs twice.
abbrev pub Distinct : List ℕ → Type 0
Distinct [] = Unit
Distinct (x ∷ xs) = (elem x xs ≡ false) × Distinct xs

pub sort-Ascending :
    (n : ℕ) (xs : List ℕ)
    → Distinct xs
    → ((j : ℕ) → elem j xs ≡ true → n ≤ j)
    → Ascending n (sort xs)
unfolding sort elem
sort-Ascending n [] d h = tt
sort-Ascending n (x ∷ xs) d h =
    insert_sorted-Ascending n x (sort xs) (sort-Ascending n xs d.1 (λ j e. h j (ground arith)))
      (h x (ground arith)) (elem-sort x xs ∙ d.0)

pub elem-last_of : (x : ℕ) (xs : List ℕ) → elem (last_of x xs) (x ∷ xs) ≡ true
unfolding elem
elem-last_of x [] = ground arith
elem-last_of x (y ∷ ys) = ground (arith, elem-last_of y ys)
