-- ===== src/Downloader/Store.antt =====
-- The cache on disk over a billy store that takes items of the sizes of its shelf (ethstorage/downloader/blob_disk_cache.go).
use es_node.Prelude.{
  ℕ, ◌<◌, ◌≤◌, ◌≡◌, refl, sym, ◌∙◌, false, inl, inr, List, [], ◌∷◌, Option, none, some,
  Option-cases, ◌==◌, arith, u64, length,
}
use es_node.Outcome.{Outcome, ok}
use es_node.Manager.{lookup, insert}
use es_node.Manager.Maps.{lookup-insert_self, lookup-insert_ne}
use es_node.Sync.{elem}
use es_node.Downloader.{Blob, BlockBlobs}
use es_node.Downloader.Errors.{Outcome-cases, is_ok, is_err, is_panic}
use es_node.Downloader.DiskCache.{
  Billy, DiskCache, delete_blobs, delete_old, put_blobs, set_block_blobs, read_blobs, blobs,
}

-- What billy documents: an item is found under its key, putting keeps the items that are there, and
-- a deletion concerns its key alone.
pub record Laws {S : Type 0} (billy : Billy S) : Type 0 where
  pub put_get :
      (b : List ℕ) (s : S) (id : ℕ)
      → (billy.put b s).0 ≡ ok id
      → billy.get id (billy.put b s).1 ≡ ok b
  pub put_keeps :
      (b : List ℕ) (s : S) (id j : ℕ) (a : List ℕ)
      → (billy.put b s).0 ≡ ok id
      → billy.get j s ≡ ok a
      → billy.get j (billy.put b s).1 ≡ ok a
  pub delete_keeps :
      (i j : ℕ) (s : S) → (i == j) ≡ false → billy.get j (billy.delete i s) ≡ billy.get j s

-- The blobs of a block that have data, as they come back.
unfoldable pub with_data : List Blob → List Blob
with_data [] = []
with_data (b ∷ bs) = elim b.blob_data [
  | none ↦ with_data bs
  | some bytes ↦ record b { blob_data = some bytes; data_id = 0 } ∷ with_data bs
]

abbrev pub data_ids : List Blob → List ℕ
data_ids [] = []
data_ids (b ∷ bs) = b.data_id ∷ data_ids bs

-- No key of the one list is among those of the other.
abbrev pub Apart : List Blob → List ℕ → Type 0
Apart [] ids = Unit
Apart (b ∷ bs) ids = (elem b.data_id ids ≡ false) × Apart bs ids

-- The data of each blob, where it has any, is not empty and at most the 131072 bytes of a blob: the
-- sizes of the one shelf that newSlotter gives.
abbrev pub AllFit : List Blob → Type 0
AllFit [] = Unit
AllFit (b ∷ bs) =
    ((bytes : List ℕ) → b.blob_data ≡ some bytes → (0 < length bytes) × (length bytes ≤ 131072))
    × AllFit bs

-- No write of the store fails: it takes every item of the sizes of its shelf.
abbrev pub TakesFitting : {S : Type 0} → Billy S → Type 0
TakesFitting {S = S} billy =
    (b : List ℕ) (s : S) → 0 < length b → length b ≤ 131072 → (id : ℕ) × ((billy.put b s).0 ≡ ok id)

module _ {S : Type 0} (billy : Billy S) (l : Laws billy) (takes : TakesFitting billy) where
  record Put (bs : List Blob) (c : DiskCache S) (r : Outcome (List Blob) × DiskCache S)
      : Type 0 where
    kept : List Blob
    returned : r.0 ≡ ok kept
    reads : read_blobs billy r.1.store kept ≡ some (with_data bs)
    keeps : (j : ℕ) (a : List ℕ) → billy.get j c.store ≡ ok a → billy.get j r.1.store ≡ ok a

  put_blobs-Put : (bs : List Blob) (c : DiskCache S) → AllFit bs → Put bs c (put_blobs billy bs c)
  unfolding put_blobs with_data read_blobs
  put_blobs-Put [] c fit = record { kept = []; returned = refl; reads = refl; keeps = λ j a h. h }
  put_blobs-Put (b ∷ bs) c fit = elim (Option-cases b.blob_data) [
    | inl nil ↦
        let ih = put_blobs-Put bs c fit.1 in
        rw (put_blobs, nil)
          (record { kept = ih.kept; returned = ih.returned; reads = ih.reads; keeps = ih.keeps })
    | inr has ↦
        let bytes = has.0 in
        let sizes = fit.0 bytes has.1 in
        let (id, p) = takes bytes c.store sizes.0 sizes.1 in
        let ih =
          put_blobs-Put bs
            (record c {
              store = (billy.put bytes c.store).1;
              kv_index_lookup = insert (u64 b.kv_index) id c.kv_index_lookup;
            })
            fit.1 in
        rw (put_blobs, has.1, p)
          (record {
            kept = record b { blob_data = none; data_id = id } ∷ ih.kept;
            returned = rw ih.returned refl;
            reads =
                rw (read_blobs, ih.keeps id bytes (l.put_get bytes c.store id p), ih.reads) refl;
            keeps = λ j a h. ih.keeps j a (l.put_keeps bytes c.store id j a p h);
          })
  ]

  read_blobs-keeps :
      (s t : S) (bs r : List Blob) (ids : List ℕ)
      → Apart bs ids
      → ((j : ℕ) (a : List ℕ) → elem j ids ≡ false → billy.get j s ≡ ok a → billy.get j t ≡ ok a)
      → read_blobs billy s bs ≡ some r
      → read_blobs billy t bs ≡ some r
  unfolding read_blobs
  read_blobs-keeps s t [] r ids apart keeps h = h
  read_blobs-keeps s t (b ∷ bs) r ids apart keeps h = elim (Outcome-cases (billy.get b.data_id s)) [
    | is_err e g ↦ absurd (ground (arith, g, h))
    | is_panic g ↦ absurd (ground (arith, g, h))
    | is_ok bytes g ↦ elim (Option-cases (read_blobs billy s bs)) [
      | inl lost ↦ absurd (ground (arith, g, lost, h))
      | inr others ↦
          let there = keeps b.data_id bytes apart.0 g in
          let rest = read_blobs-keeps s t bs others.0 ids apart.1 keeps others.1 in
          rw (read_blobs, there, rest) (sym (rw (read_blobs, g, others.1) refl) ∙ h)
    ]
  ]

  delete_blobs-keeps :
      (old : List Blob) (s : S) (j : ℕ)
      → elem j (data_ids old) ≡ false
      → billy.get j (delete_blobs billy old s) ≡ billy.get j s
  unfolding delete_blobs elem
  delete_blobs-keeps [] s j out = refl
  delete_blobs-keeps (b ∷ old) s j out =
      delete_blobs-keeps old (billy.delete b.data_id s) j (ground arith)
      ∙ l.delete_keeps b.data_id j s (ground arith)

  -- The store before the blobs of the block are put.
  abbrev emptied : Option BlockBlobs → DiskCache S → DiskCache S
  emptied old c = record c { store = delete_old billy old c.store }

  abbrev old_ids : Option BlockBlobs → List ℕ
  old_ids none = []
  old_ids (some old) = data_ids old.blobs

  emptied-keeps :
      (old : Option BlockBlobs) (c : DiskCache S) (j : ℕ) (a : List ℕ)
      → elem j (old_ids old) ≡ false
      → billy.get j c.store ≡ ok a
      → billy.get j (emptied old c).store ≡ ok a
  emptied-keeps none c j a out h = h
  emptied-keeps (some old) c j a out h = delete_blobs-keeps old.blobs c.store j out ∙ h

  blobs-found :
      (number : ℕ) (c : DiskCache S) (block : BlockBlobs)
      → lookup number c.block_lookup ≡ some block
      → blobs billy number c ≡ read_blobs billy c.store block.blobs
  unfolding blobs
  blobs-found number c block h = rw (blobs, h) refl

  -- If the store keeps what is documented and takes every item that is not empty and at most 131072
  -- bytes long, then the cache on disk takes a block whose data have such sizes: its blobs with
  -- data come back in their order, and another block, which has another number, could be read and
  -- whose keys are not those of the block that is replaced, comes back as before.
  pub set_block_blobs-blobs :
      (block : BlockBlobs) (number : ℕ) (c : DiskCache S) (other : BlockBlobs) (r : List Blob)
      → AllFit block.blobs
      → (block.number == number) ≡ false
      → lookup number c.block_lookup ≡ some other
      → blobs billy number c ≡ some r
      → Apart other.blobs (old_ids (lookup block.number c.block_lookup))
      → ((set_block_blobs billy block c).0 ≡ ok tt)
        × (blobs billy block.number (set_block_blobs billy block c).1
            ≡ some (with_data block.blobs))
        × (blobs billy number (set_block_blobs billy block c).1 ≡ some r)
  unfolding set_block_blobs blobs
  set_block_blobs-blobs block number c other r fit differs there before apart =
      let old = lookup block.number c.block_lookup in
      let p = put_blobs-Put block.blobs (emptied old c) fit in
      let after = record (put_blobs billy block.blobs (emptied old c)).1 {
        block_lookup = insert block.number (record block { blobs = p.kept }) c.block_lookup;
      } in
      rw (set_block_blobs, p.returned)
        (
          refl,
          blobs-found block.number after _ (lookup-insert_self block.number _ c.block_lookup)
              ∙ p.reads,
          blobs-found number after other
                (lookup-insert_ne block.number number _ c.block_lookup (ground arith) ∙ there)
              ∙ read_blobs-keeps c.store _ other.blobs r (old_ids old) apart
                  (λ j a out g. p.keeps j a (emptied-keeps old c j a out g))
                  (sym (blobs-found number c other there) ∙ before),
        )
