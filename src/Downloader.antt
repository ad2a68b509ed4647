-- ===== src/Downloader.antt =====
-- ethstorage/downloader/downloader.go: how a node follows the blobs that L1 announces. The answers
-- of the L1 node, of the beacon or DA client, of the mail server and of the database come from a
-- `Round`, one for each turn of a loop. Block numbers are natural numbers below 2 ^ 63, as int64
-- has them once Start has run.
pub mod Fetch
pub mod Loops
pub mod MemCache
pub mod DiskCache
pub mod Blocks
pub mod Positions
pub mod Unique
pub mod Errors
pub mod Reached
pub mod Cached
pub mod Store
pub mod Start
use es_node.Prelude.{
  ℕ, zero, suc, ◌+◌, Bool, true, false, List, [], ◌∷◌, ◌++◌, Option, none, some, take, drop, pad_to,
  length, ◌==◌, if◌then◌else◌, u64, bytes_equal,
}
use es_node.Outcome.{Outcome, ok, err, panic, ◌>>=◌, Exec}
use es_node.BigEndian.{be_value}
use es_node.ChunkCode.{hash_size_in_contract}

-- A blob without its data yet has none; data_id is used by the cache on disk only.
pub record Blob : Type 0 where
  pub kv_index : ℕ
  pub kv_size : ℕ
  pub hash : List ℕ
  pub blob_data : Option (List ℕ)
  pub data_id : ℕ

pub record BlockBlobs : Type 0 where
  pub timestamp : ℕ
  pub number : ℕ
  pub blobs : List Blob

-- types.Log
pub record Event : Type 0 where
  pub block_number : ℕ
  pub topics : List (List ℕ)

-- The interface BlobCache, for a cache with the state `C`.
pub record BlobCache (C : Type 0) : Type 0 where
  pub set_block_blobs : BlockBlobs → Exec C (Unit {0})
  pub blobs : ℕ → C → Option (List Blob)
  pub get_key_value_by_index : ℕ → List ℕ → C → Option (List ℕ)
  pub get_sample_data : ℕ → ℕ → C → Outcome (Option (List ℕ))
  pub cleanup : ℕ → C → C

-- A log of the PutBlob event has the index, the size and the hash behind its signature: with
-- fewer topics the code panics.
unfoldable pub blob_of : Event → Outcome Blob
blob_of event = elim event.topics [
  | _ ∷ kv_index ∷ kv_size ∷ hash ∷ _ ↦ ok (record {
    kv_index = be_value kv_index;
    kv_size = be_value kv_size;
    hash = pad_to 32 hash;
    blob_data = none;
    data_id = 0;
  })
  | _ ↦ panic
]

-- blocks[len(blocks)-1] gets one more blob: a panic without a block.
unfoldable pub add_to_last : Blob → List BlockBlobs → Outcome (List BlockBlobs)
add_to_last b [] = panic
add_to_last b (block ∷ []) = ok (record block { blobs = block.blobs ++ b ∷ [] } ∷ [])
add_to_last b (block ∷ next ∷ blocks) = add_to_last b (next ∷ blocks) >>= λ rest. ok (block ∷ rest)

-- A block is opened with the time of its header, when the number changes.
abbrev pub open_block : (ℕ → Outcome ℕ) → Event → ℕ → List BlockBlobs → Outcome (List BlockBlobs)
open_block header_time event last blocks =
    if last == event.block_number
    then ok blocks
    else header_time event.block_number >>= λ time.
        ok (blocks ++ record { timestamp = time; number = event.block_number; blobs = [] } ∷ [])

unfoldable pub group_events :
    (ℕ → Outcome ℕ) → List Event → ℕ → List BlockBlobs → Outcome (List BlockBlobs)
unfolding blob_of add_to_last
group_events header_time [] last blocks = ok blocks
group_events header_time (event ∷ events) last blocks = do
  opened ← open_block header_time event last blocks
  b ← blob_of event
  filled ← add_to_last b opened
  group_events header_time events event.block_number filled

unfoldable pub events_to_blocks : (ℕ → Outcome ℕ) → List Event → Outcome (List BlockBlobs)
unfolding group_events
events_to_blocks header_time events = group_events header_time events 0 []

-- The lists for DownloadFinished: an index that comes again replaces the data and the hash that
-- are at its position.
pub record Writes : Type 0 where
  pub kv_indices : List ℕ
  pub data_blobs : List (List ℕ)
  pub metas : List (List ℕ)

abbrev pub no_writes : Writes
no_writes = record { kv_indices = []; data_blobs = []; metas = [] }

-- meta[0:24] is the hash's, and the rest is zero.
unfoldable pub meta_of : List ℕ → List ℕ
meta_of hash = pad_to 32 (take hash_size_in_contract hash)

-- Data that is nil is written as no bytes.
abbrev pub bytes_of : Option (List ℕ) → List ℕ
bytes_of none = []
bytes_of (some bytes) = bytes

-- kvIdxToArrayIdx holds the position of an index in the list.
unfoldable pub position : ℕ → List ℕ → Option ℕ
position idx [] = none
position idx (i ∷ is) =
    let rest = position idx is in
    if i == idx then some 0 else elim rest [ none ↦ none | some k ↦ some (k + 1) ]

unfoldable pub change_at : {A : Type 0} → ℕ → (A → A) → List A → List A
change_at k f [] = []
change_at zero f (x ∷ xs) = f x ∷ xs
change_at (suc k) f (x ∷ xs) = x ∷ change_at k f xs

-- copy(metas[i][0:24], hash[0:24])
abbrev pub copy_hash : List ℕ → List ℕ → List ℕ
copy_hash hash meta = take hash_size_in_contract hash ++ drop hash_size_in_contract meta

unfoldable pub add_write : Blob → Writes → Writes
unfolding position change_at meta_of
add_write b w = elim (position (u64 b.kv_index) w.kv_indices) [
  | some k ↦ record {
    kv_indices = w.kv_indices;
    data_blobs = change_at k (λ _. bytes_of b.blob_data) w.data_blobs;
    metas = change_at k (copy_hash b.hash) w.metas;
  }
  | none ↦ record {
    kv_indices = w.kv_indices ++ u64 b.kv_index ∷ [];
    data_blobs = w.data_blobs ++ bytes_of b.blob_data ∷ [];
    metas = w.metas ++ meta_of b.hash ∷ [];
  }
]

unfoldable pub writes_of : List Blob → Writes → Writes
unfolding add_write
writes_of [] w = w
writes_of (b ∷ bs) w = writes_of bs (add_write b w)
