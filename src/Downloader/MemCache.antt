-- ===== src/Downloader/MemCache.antt =====
-- ethstorage/downloader/blob_mem_cache.go: the blocks by their numbers. A search goes over the
-- blocks in the order of the list, as a Go map has some order.
use es_node.Prelude.{
  ℕ, ◌&&◌, Bool, List, [], ◌∷◌, Option, none, some, take, leb, ◌==◌, if◌then◌else◌, bytes_equal,
  u64, ◌+64◌, ◌<<64◌,
}
use es_node.Outcome.{Outcome, ok, ◌>>=◌}
use es_node.ChunkCode.{hash_size_in_contract}
use es_node.Manager.{Map, lookup, insert}
use es_node.Shard.Access.{sub_slice}
use es_node.Downloader.{Blob, BlockBlobs, BlobCache, bytes_of}

abbrev pub sample_size : ℕ
sample_size = 32

-- The first blob that passes a test.
unfoldable pub find_blob : (Blob → Bool) → List Blob → Option Blob
find_blob test [] = none
find_blob test (b ∷ bs) = if test b then some b else find_blob test bs

unfoldable pub find_in_blocks : (Blob → Bool) → Map BlockBlobs → Option Blob
unfolding find_blob
find_in_blocks test [] = none
find_in_blocks test ((_, block) ∷ blocks) = elim (find_blob test block.blobs) [
  | some b ↦ some b
  | none ↦ find_in_blocks test blocks
]

abbrev pub is_version : ℕ → List ℕ → Blob → Bool
is_version idx hash b =
    u64 b.kv_index == idx
    && bytes_equal (take hash_size_in_contract b.hash) (take hash_size_in_contract hash)

unfoldable pub get_key_value_by_index : ℕ → List ℕ → Map BlockBlobs → Option (List ℕ)
unfolding find_in_blocks
get_key_value_by_index idx hash blocks = elim (find_in_blocks (is_version idx hash) blocks) [
  | none ↦ none
  | some b ↦ b.blob_data
]

-- Any version of the entry serves; a panic if its data are shorter, or nil.
unfoldable pub get_sample_data : ℕ → ℕ → Map BlockBlobs → Outcome (Option (List ℕ))
unfolding find_in_blocks
get_sample_data idx sample_idx_in_kv blocks =
    elim (find_in_blocks (λ b. u64 b.kv_index == idx) blocks) [
      | none ↦ ok none
      | some b ↦
          let from = sample_idx_in_kv <<64 5 in
          sub_slice (bytes_of b.blob_data) from (from +64 sample_size) >>= λ sample.
          ok (some sample)
    ]

unfoldable pub cleanup : ℕ → Map BlockBlobs → Map BlockBlobs
cleanup finalized [] = []
cleanup finalized ((k, block) ∷ blocks) =
    let rest = cleanup finalized blocks in
    if leb block.number finalized then rest else (k, block) ∷ rest

-- The block with all its blobs, those without data too.
unfoldable pub blobs : ℕ → Map BlockBlobs → Option (List Blob)
blobs number blocks = elim (lookup number blocks) [ none ↦ none | some block ↦ some block.blobs ]

unfoldable pub mem_cache : BlobCache (Map BlockBlobs)
mem_cache = record {
  set_block_blobs = λ block c. (ok tt, insert block.number block c);
  blobs = blobs;
  get_key_value_by_index = get_key_value_by_index;
  get_sample_data = get_sample_data;
  cleanup = cleanup;
}
