-- ===== src/Downloader/DiskCache.antt =====
-- ethstorage/downloader/blob_disk_cache.go: the blobs in a billy store, and the blocks by their
-- numbers. The store is a parameter, as an interface over its state.
use es_node.Prelude.{ℕ, List, [], ◌∷◌, Option, none, some, leb, if◌then◌else◌, u64, ◌<<64◌}
use es_node.Outcome.{Outcome, ok, err, panic, Exec, ◌>>=◌}
use es_node.Manager.{Map, lookup, insert}
use es_node.Storage.{remove}
use es_node.Downloader.{Blob, BlockBlobs, BlobCache}
use es_node.Downloader.MemCache.{find_in_blocks, is_version, sample_size}

-- billy.Database over a state `S`: Put answers the key of a new item.
pub record Billy (S : Type 0) : Type 0 where
  pub put : List ℕ → S → Outcome ℕ × S
  pub get : ℕ → S → Outcome (List ℕ)
  pub delete : ℕ → S → S
  pub get_sample : ℕ → ℕ → ℕ → S → Outcome (List ℕ)

pub record DiskCache (S : Type 0) : Type 0 where
  pub store : S
  pub block_lookup : Map BlockBlobs
  pub kv_index_lookup : Map ℕ

module _ {S : Type 0} (billy : Billy S) where
  -- An error of Delete is logged only.
  unfoldable pub delete_blobs : List Blob → S → S
  delete_blobs [] s = s
  delete_blobs (b ∷ bs) s = delete_blobs bs (billy.delete b.data_id s)

  -- The blobs with data are put, and are known by the keys; an error leaves what was put.
  unfoldable pub put_blobs : List Blob → DiskCache S → Outcome (List Blob) × DiskCache S
  put_blobs [] c = (ok [], c)
  put_blobs (b ∷ bs) c = elim b.blob_data [
    | none ↦ put_blobs bs c
    | some bytes ↦
        let r = billy.put bytes c.store in
        elim r.0 [
          | err e ↦ (err e, record c { store = r.1 })
          | panic ↦ (panic, record c { store = r.1 })
          | ok id ↦
              let rest = put_blobs bs (record c {
                store = r.1;
                kv_index_lookup = insert (u64 b.kv_index) id c.kv_index_lookup;
              }) in
              (
                rest.0 >>= λ others. ok (record b { blob_data = none; data_id = id } ∷ others),
                rest.1,
              )
        ]
  ]

  abbrev pub delete_old : Option BlockBlobs → S → S
  delete_old none s = s
  delete_old (some old) s = delete_blobs old.blobs s

  unfoldable pub set_block_blobs : BlockBlobs → Exec (DiskCache S) (Unit {0})
  unfolding put_blobs delete_blobs
  set_block_blobs block c =
      let r =
        put_blobs block.blobs
          (record c { store = delete_old (lookup block.number c.block_lookup) c.store }) in
      elim r.0 [
        | err e ↦ (err e, r.1)
        | panic ↦ (panic, r.1)
        | ok kept ↦ (
          ok tt,
          record r.1 {
            block_lookup = insert block.number (record block { blobs = kept }) c.block_lookup;
          },
        )
      ]

  -- One blob that cannot be read makes the whole block unknown.
  unfoldable pub read_blobs : S → List Blob → Option (List Blob)
  read_blobs s [] = some []
  read_blobs s (b ∷ bs) =
      let rest = read_blobs s bs in
      elim (billy.get b.data_id s) [
        | err _ ↦ none
        | panic ↦ none
        | ok bytes ↦ elim rest [
          | none ↦ none
          | some others ↦ some (record b { blob_data = some bytes; data_id = 0 } ∷ others)
        ]
      ]

  unfoldable pub blobs : ℕ → DiskCache S → Option (List Blob)
  unfolding read_blobs
  blobs number c = elim (lookup number c.block_lookup) [
    | none ↦ none
    | some block ↦ read_blobs c.store block.blobs
  ]

  abbrev or_nil : Outcome (List ℕ) → Option (List ℕ)
  or_nil (ok bytes) = some bytes
  or_nil (err e) = none
  or_nil panic = none

  unfoldable pub get_key_value_by_index : ℕ → List ℕ → DiskCache S → Option (List ℕ)
  get_key_value_by_index idx hash c = elim (find_in_blocks (is_version idx hash) c.block_lookup) [
    | none ↦ none
    | some b ↦ or_nil (billy.get b.data_id c.store)
  ]

  unfoldable pub get_sample_data : ℕ → ℕ → DiskCache S → Outcome (Option (List ℕ))
  get_sample_data idx sample_idx c = elim (lookup idx c.kv_index_lookup) [
    | none ↦ ok none
    | some id ↦ ok (or_nil (billy.get_sample id (sample_idx <<64 5) sample_size c.store))
  ]

  unfoldable pub forget_blobs : List Blob → DiskCache S → DiskCache S
  forget_blobs [] c = c
  forget_blobs (b ∷ bs) c = forget_blobs bs (record c {
    store = billy.delete b.data_id c.store;
    kv_index_lookup = remove (u64 b.kv_index) c.kv_index_lookup;
  })

  -- The blocks up to the finalized one, in the order of the list.
  unfoldable pub cleanup_blocks : ℕ → Map BlockBlobs → DiskCache S → DiskCache S
  unfolding forget_blobs
  cleanup_blocks finalized [] c = c
  cleanup_blocks finalized ((number, block) ∷ blocks) c = cleanup_blocks finalized blocks (
      if leb number finalized
      then forget_blobs block.blobs (record c { block_lookup = remove number c.block_lookup })
      else c)

  unfoldable pub cleanup : ℕ → DiskCache S → DiskCache S
  unfolding cleanup_blocks
  cleanup finalized c = cleanup_blocks finalized c.block_lookup c

  unfoldable pub disk_cache : BlobCache (DiskCache S)
  disk_cache = record {
    set_block_blobs = set_block_blobs;
    blobs = blobs;
    get_key_value_by_index = get_key_value_by_index;
    get_sample_data = get_sample_data;
    cleanup = cleanup;
  }
