-- ===== src/Downloader/Cached.antt =====
-- What downloadRange does with blocks that are in the cache (ethstorage/downloader/downloader.go),
-- and what the cache in memory has (ethstorage/downloader/blob_mem_cache.go).
use mathlib.Core.List.{append-nil, append_assoc}
use es_node.Prelude.{
  ℕ, ◌≡◌, refl, sym, ap, ◌∙◌, Bool, inl, inr, List, [], ◌∷◌, ◌++◌, Option, none, some, Option-cases,
  some-injective, leb, arith, ltb, if◌then◌else◌, ◌==◌,
}
use es_node.Outcome.{ok}
use es_node.Externals.{Externals}
use es_node.Manager.{Map, ShardManager, lookup}
use es_node.Manager.Maps.{lookup-insert}
use es_node.Downloader.{Blob, BlockBlobs, BlobCache, Event, events_to_blocks}
use es_node.Downloader.Blocks.{numbers}
use es_node.Downloader.Fetch.{Round, download_blocks, download_range}
use es_node.Downloader.MemCache
use es_node.Downloader.MemCache.{mem_cache}

-- The cached blobs of blocks, if all of them are cached.
unfoldable pub all_cached : (ℕ → Option (List Blob)) → List ℕ → Option (List Blob)
all_cached cached [] = some []
all_cached cached (n ∷ ns) =
    let rest = all_cached cached ns in
    elim (cached n) [
      | none ↦ none
      | some bs ↦ elim rest [ none ↦ none | some others ↦ some (bs ++ others) ]
    ]

all_cached-∷ :
    (cached : ℕ → Option (List Blob)) (n : ℕ) (ns : List ℕ) (r : List Blob)
    → all_cached cached (n ∷ ns) ≡ some r
    → (bs : List Blob) × (others : List Blob) × (cached n ≡ some bs)
      × (all_cached cached ns ≡ some others)
      × (r ≡ bs ++ others)
unfolding all_cached
all_cached-∷ cached n ns r h = elim (Option-cases (cached n)) [
  | inl missing ↦ absurd (ground (arith, missing, h))
  | inr here ↦ elim (Option-cases (all_cached cached ns)) [
    | inl missing ↦ absurd (ground (arith, missing, here.1, h))
    | inr there ↦ (
      here.0,
      there.0,
      here.1,
      there.1,
      sym (some-injective (sym (rw (all_cached, here.1, there.1) refl) ∙ h)),
    )
  ]
]

module _ (x : Externals) (sm : ShardManager) (round : Round) {C : Type 0} (cache : BlobCache C)
    (to_cache : Bool) where
  download_blocks-cached :
      (blocks : List BlockBlobs) (before r : List Blob) (c : C)
      → all_cached (λ n. cache.blobs n c) (numbers blocks) ≡ some r
      → download_blocks x sm round cache to_cache blocks before c ≡ (ok (before ++ r), c)
  unfolding download_blocks numbers all_cached
  download_blocks-cached [] before r c h =
      ap (λ t. (ok t, c)) (sym (append-nil before) ∙ ap (λ t. before ++ t) (some-injective h))
  download_blocks-cached (block ∷ blocks) before r c h =
      let p = all_cached-∷ (λ n. cache.blobs n c) block.number (numbers blocks) r h in
      rw (download_blocks, p.2)
        (download_blocks-cached blocks (before ++ p.0) p.1 c p.3
          ∙ ap (λ t. (ok t, c)) (append_assoc before p.0 p.1 ∙ ap (λ t. before ++ t) (sym p.4)))

  -- If L1 answers for a range of blocks, and every block of the events is in the cache, then
  -- downloadRange gives the cached blobs of their numbers, one block after the other, whatever
  -- indices and hashes the events announce.
  pub download_range-cached :
      (start end : ℕ) (events : List Event) (blocks : List BlockBlobs) (r : List Blob) (c : C)
      → round.filter_logs start (if ltb end start then start else end) ≡ ok events
      → events_to_blocks round.header_time events ≡ ok blocks
      → all_cached (λ n. cache.blobs n c) (numbers blocks) ≡ some r
      → download_range x sm round cache start end to_cache c ≡ (ok r, c)
  unfolding download_range
  download_range-cached start end events blocks r c l g h =
      rw (download_range, l, g) (download_blocks-cached blocks [] r c h)

-- Each block is kept under its number.
abbrev pub ByNumber : Map BlockBlobs → Type 0
ByNumber [] = Unit
ByNumber ((k, block) ∷ blocks) = (block.number ≡ k) × ByNumber blocks

lookup-cleanup :
    (finalized number : ℕ) (c : Map BlockBlobs)
    → ByNumber c
    → lookup number (MemCache.cleanup finalized c)
      ≡ (if leb number finalized then none else lookup number c)
unfolding lookup MemCache.cleanup
lookup-cleanup finalized number [] k = ground arith
lookup-cleanup finalized number ((n, block) ∷ blocks) k =
    ground (arith, lookup-cleanup finalized number blocks k.1, k.0)

-- In the cache in memory a block has the blobs that it was set to, and the others keep theirs; a
-- clean-up takes away the blocks up to the finalized one and no other, if each is under its number.
pub mem_cache-blobs :
    (block : BlockBlobs) (number finalized : ℕ) (c : Map BlockBlobs)
    → ByNumber c
    → ((mem_cache.set_block_blobs block c).0 ≡ ok tt)
      × (mem_cache.blobs number (mem_cache.set_block_blobs block c).1
          ≡ (if block.number == number then some block.blobs else mem_cache.blobs number c))
      × (mem_cache.blobs number (mem_cache.cleanup finalized c)
          ≡ (if leb number finalized then none else mem_cache.blobs number c))
unfolding mem_cache MemCache.blobs
mem_cache-blobs block number finalized c k = (
  refl,
  ground (arith, lookup-insert block.number number block c),
  ground (arith, lookup-cleanup finalized number c k),
)
