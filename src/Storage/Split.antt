-- ===== src/Storage/Split.antt =====
-- ethstorage/storage_manager.go, DownloadFinished: which goroutine writes which of the new blobs.
use native.Mathlib.Decide.{dec_lt}
use native.Mathlib.Nat.{mod-lt, mod-le, mod-add-div'}
use es_node.Prelude.{
  ℕ, zero, suc, ◌+◌, ◌-◌, ◌*◌, ◌/◌, ◌%◌, ◌≤◌, ◌<◌, ◌≡◌, refl, sym, ap, ◌∙◌, min, List, [], ◌∷◌,
  none, some, some-injective, length, get_elem?, arith,
}
use es_node.Storage.Download.{Item, every, tasks_from, split_tasks}

-- Which items `every` takes.
every-eq :
    (n skip : ℕ) (its : List Item) (q : ℕ)
    → 0 < n
    → get_elem? (every n skip its) q ≡ get_elem? its (skip + q * n)
unfolding every
every-eq n skip [] q p = refl
every-eq n zero (it ∷ its) zero p =
    let first : 0 ≡ 0 + 0 * n = omega arith in ap (get_elem? (it ∷ its)) first
every-eq n zero (it ∷ its) (suc q) p =
    let next : suc (n - 1 + q * n) ≡ 0 + suc q * n = omega arith in
    every-eq n (n - 1) its q p ∙ ap (get_elem? (it ∷ its)) next
every-eq n (suc skip) (it ∷ its) q p =
    let next : suc (skip + q * n) ≡ suc skip + q * n = omega arith in
    every-eq n skip its q p ∙ ap (get_elem? (it ∷ its)) next

tasks_from-eq :
    (n idx left k : ℕ) (its : List Item)
    → k < left
    → get_elem? (tasks_from n idx left its) k ≡ some (every n (idx + k) its)
unfolding tasks_from
tasks_from-eq n idx zero k its h = absurd (omega arith)
tasks_from-eq n idx (suc left) zero its h = ap (λ i. some (every n i its)) (omega arith)
tasks_from-eq n idx (suc left) (suc k) its h =
    tasks_from-eq n (idx + 1) left k its (omega arith)
    ∙ ap (λ i. some (every n i its)) (omega arith)

tasks_from-none :
    (n idx left k : ℕ) (its : List Item) → left ≤ k → get_elem? (tasks_from n idx left its) k ≡ none
unfolding tasks_from
tasks_from-none n idx zero k its h = refl
tasks_from-none n idx (suc left) zero its h = absurd (omega arith)
tasks_from-none n idx (suc left) (suc k) its h =
    tasks_from-none n (idx + 1) left k its (omega arith)

module _ (n : ℕ) (p : 0 < n) (its : List Item) where
  split_tasks-some :
      (k : ℕ) → k < min n (length its) → get_elem? (split_tasks n its) k ≡ some (every n k its)
  unfolding split_tasks
  split_tasks-some k h =
      tasks_from-eq n 0 (min n (length its)) k its h ∙ ap (λ i. some (every n i its)) (omega arith)

  -- DownloadFinished with at least one goroutine gives every new blob to exactly one of them: the
  -- blob at position i goes to goroutine i % n, as its write i / n, and the write q of a goroutine
  -- k is the blob at position k + q * n, if there is one, and none otherwise.
  pub split_tasks-Assigned :
      ((i : ℕ)
        → i < length its
        → (task : List Item) × (get_elem? (split_tasks n its) (i % n) ≡ some task)
          × (get_elem? task (i / n) ≡ get_elem? its i))
      × ((k q : ℕ) (task : List Item)
          → get_elem? (split_tasks n its) k ≡ some task
          → (k < n) × (get_elem? task q ≡ get_elem? its (k + q * n)))
  unfolding split_tasks
  split_tasks-Assigned = (given, only)
    where
      given :
          (i : ℕ)
          → i < length its
          → (task : List Item) × (get_elem? (split_tasks n its) (i % n) ≡ some task)
            × (get_elem? task (i / n) ≡ get_elem? its i)
      given i h =
          let small : i % n < min n (length its) = omega (arith, mod-lt i p, mod-le i n) in
          (
            every n (i % n) its,
            split_tasks-some (i % n) small,
            every-eq n (i % n) its (i / n) p ∙ ap (get_elem? its) (mod-add-div' i n),
          )

      only :
          (k q : ℕ) (task : List Item)
          → get_elem? (split_tasks n its) k ≡ some task
          → (k < n) × (get_elem? task q ≡ get_elem? its (k + q * n))
      only k q task h = elim (dec_lt k (min n (length its))) [
        | yes few ↦
            let same : every n k its ≡ task = some-injective (sym (split_tasks-some k few) ∙ h) in
            (omega arith, sym (ap (λ t. get_elem? t q) same) ∙ every-eq n k its q p)
        | no many ↦
            let gone : get_elem? (split_tasks n its) k ≡ none =
              tasks_from-none n 0 (min n (length its)) k its (omega arith) in
            absurd (ground (arith, gone, h))
      ]
