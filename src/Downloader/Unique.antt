-- ===== src/Downloader/Unique.antt =====
-- The lists that download hands to DownloadFinished, whose writes run in parallel
-- (ethstorage/downloader/downloader.go).
use es_node.Prelude.{
  ℕ, suc, ◌≡◌, refl, ap, ◌∙◌, Bool, true, false, inl, inr, Option, none, some, Option-cases, List,
  [], ◌∷◌, length, ◌==◌, arith, if◌then◌else◌, u64,
}
use es_node.Storage.Commits.{lens_differ}
use es_node.Sync.Heal.{Distinct}
use es_node.Downloader.{Blob, Writes, no_writes, bytes_of, meta_of, position, add_write, writes_of}
use es_node.Downloader.Positions.{
  find_write, Shaped, find_write-change_at, find_write-append, Distinct-append,
}

-- The last blob of an index, with its data and its hash as metadata.
unfoldable pub last_write : ℕ → List Blob → Option (List ℕ × List ℕ)
last_write idx [] = none
last_write idx (b ∷ bs) = elim (last_write idx bs) [
  | some r ↦ some r
  | none ↦ if u64 b.kv_index == idx then some (bytes_of b.blob_data, meta_of b.hash) else none
]

-- What holds of the lists at any time.
record Good (w : Writes) : Type 0 where
  distinct : Distinct w.kv_indices
  shaped : Shaped w.kv_indices w.data_blobs w.metas

abbrev found_in : ℕ → Writes → Option (List ℕ × List ℕ)
found_in j w = find_write j w.kv_indices w.data_blobs w.metas

add_write-found :
    (b : Blob) (w : Writes)
    → length b.hash ≡ 32
    → Good w
    → Good (add_write b w)
      × ((j : ℕ)
          → found_in j (add_write b w) ≡ (
              if u64 b.kv_index == j
              then some (bytes_of b.blob_data, meta_of b.hash)
              else found_in j w))
unfolding add_write
add_write-found b w full g = elim (Option-cases (position (u64 b.kv_index) w.kv_indices)) [
  | inl new ↦
      let r =
        find_write-append b.hash full (u64 b.kv_index) (bytes_of b.blob_data) w.kv_indices
          w.data_blobs w.metas new g.shaped in
      rw (add_write, new)
        ((
          record {
            distinct = Distinct-append (u64 b.kv_index) w.kv_indices new g.distinct;
            shaped = r.0;
          },
          r.1,
        ))
  | inr there ↦
      let r =
        find_write-change_at b.hash full (u64 b.kv_index) (bytes_of b.blob_data) there.0
          w.kv_indices w.data_blobs w.metas there.1 g.shaped in
      rw (add_write, there.1) ((record { distinct = g.distinct; shaped = r.0 }, r.1))
]

abbrev pub AllHashes : List Blob → Type 0
AllHashes [] = Unit
AllHashes (b ∷ bs) = (length b.hash ≡ 32) × AllHashes bs

if_none :
    {A : Type 0} (a : A) (o : Option A) (t : Bool)
    → (if t then some a else o) ≡ elim (if t then some a else none) [ none ↦ o | some r ↦ some r ]
if_none a o true = refl
if_none a o false = refl

writes_of-found :
    (bs : List Blob) (w : Writes)
    → AllHashes bs
    → Good w
    → Good (writes_of bs w)
      × ((j : ℕ)
          → found_in j (writes_of bs w)
            ≡ elim (last_write j bs) [ none ↦ found_in j w | some r ↦ some r ])
unfolding writes_of last_write
writes_of-found [] w full g = (g, λ j. refl)
writes_of-found (b ∷ bs) w full g =
    let one = add_write-found b w full.0 g in
    let ih = writes_of-found bs (add_write b w) full.1 one.0 in
    (
      ih.0,
      λ j. elim (Option-cases (last_write j bs)) [
        | inl never ↦ ih.1 j ∙ rw never (one.1 j ∙ if_none _ _ (u64 b.kv_index == j))
        | inr later ↦ ih.1 j ∙ rw later.1 refl
      ],
    )

Shaped-lens :
    (is : List ℕ) (ds ms : List (List ℕ))
    → Shaped is ds ms
    → (length is ≡ length ds) × (length ds ≡ length ms)
Shaped-lens [] [] [] s = (refl, refl)
Shaped-lens [] [] (m ∷ ms) s = absurd s
Shaped-lens [] (d ∷ ds) ms s = absurd s
Shaped-lens (i ∷ is) [] ms s = absurd s
Shaped-lens (i ∷ is) (d ∷ ds) [] s = absurd s
Shaped-lens (i ∷ is) (d ∷ ds) (m ∷ ms) s =
    let r = Shaped-lens is ds ms s.1 in (ap suc r.0, ap suc r.1)

lens_agree : (is : List ℕ) (ds ms : List (List ℕ)) → Shaped is ds ms → lens_differ is ds ms ≡ false
unfolding lens_differ
lens_agree is ds ms s = let r = Shaped-lens is ds ms s in ground (arith, r.0, r.1)

-- For blobs with hashes of 32 bytes, the indices of the lists are distinct, DownloadFinished takes
-- the lists to be of the same length, and they hold for each index the data of its last blob and
-- the 24 bytes of its hash, and nothing for an index that no blob has.
pub writes_of-last :
    (bs : List Blob)
    → AllHashes bs
    → Distinct (writes_of bs no_writes).kv_indices
      × (lens_differ
            (writes_of bs no_writes).kv_indices
            (writes_of bs no_writes).data_blobs
            (writes_of bs no_writes).metas
          ≡ false)
      × ((j : ℕ)
          → find_write j
              (writes_of bs no_writes).kv_indices
              (writes_of bs no_writes).data_blobs
              (writes_of bs no_writes).metas
            ≡ last_write j bs)
unfolding find_write
writes_of-last bs full =
    let r = writes_of-found bs no_writes full (record { distinct = tt; shaped = tt }) in
    (
      r.0.distinct,
      lens_agree _ _ _ r.0.shaped,
      λ j. elim (Option-cases (last_write j bs)) [
        | inl never ↦ r.1 j ∙ rw never refl
        | inr later ↦ r.1 j ∙ rw later.1 refl
      ],
    )
