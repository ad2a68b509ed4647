-- ===== src/Manager.antt =====
-- ethstorage/shard_manager.go: the shards of a node by their index. A Go pair of a flag and an
-- error is an outcome: `ok false` or `ok none` says that the data are not managed here, and an
-- error comes with the flag set.
pub mod Access
pub mod Coding
pub mod Maps
pub mod Creation
pub mod RoundTrip
use es_node.Prelude.{
  ℕ, ◌+◌, ◌-◌, ◌*◌, ◌/◌, ◌%◌, Bool, true, false, not, List, [], ◌∷◌, ◌++◌, Option, none, some, ltb,
  leb, ◌==◌, if◌then◌else◌, ◌-64◌,
}
use es_node.Outcome.{
  Error, Outcome, ok, err, panic, ◌>>=◌, ◌>>◌, refuse_if, Exec, then_do, shard_not_found,
  shard_exists, shard_not_complete,
}
use es_node.Pow2.{check_and_get_bits}
use es_node.DataFile.{DataFile, no_encode}
use es_node.Shard
use es_node.Shard.{DataShard, new_data_shard, add_data_file}

-- A Go map with `uint64` keys, as the list of its entries, one for each key.
abbrev pub Map : Type 0 → Type 0
Map A = List (ℕ × A)

unfoldable pub lookup : {A : Type 0} → ℕ → Map A → Option A
lookup k [] = none
lookup k ((j, v) ∷ m) = if j == k then some v else lookup k m

unfoldable pub insert : {A : Type 0} → ℕ → A → Map A → Map A
insert key value [] = (key, value) ∷ []
insert key value ((k, old) ∷ m) =
    if k == key then (key, value) ∷ m else (k, old) ∷ insert key value m

pub record ShardManager : Type 0 where
  pub shard_map : Map DataShard
  pub contract_address : List ℕ
  pub kv_size_bits : ℕ
  pub kv_size : ℕ
  pub chunks_per_kv_bits : ℕ
  pub chunks_per_kv : ℕ
  pub kv_entries_bits : ℕ
  pub kv_entries : ℕ
  pub chunk_size : ℕ
  pub chunk_size_bits : ℕ

-- The registration in the global ContractToShardManager is not modelled.
unfoldable pub new_shard_manager : List ℕ → ℕ → ℕ → ℕ → Outcome ShardManager
new_shard_manager contract_address kv_size kv_entries chunk_size =
    if ltb kv_size chunk_size then panic else (do
      kv_size_bits ← check_and_get_bits kv_size
      chunk_size_bits ← check_and_get_bits chunk_size
      kv_entries_bits ← check_and_get_bits kv_entries
      ok (record {
        shard_map = [];
        contract_address = contract_address;
        kv_size_bits = kv_size_bits;
        kv_size = kv_size;
        chunks_per_kv_bits = kv_size_bits -64 chunk_size_bits;
        chunks_per_kv = kv_size / chunk_size;
        kv_entries_bits = kv_entries_bits;
        kv_entries = kv_entries;
        chunk_size = chunk_size;
        chunk_size_bits = chunk_size_bits;
      }))

-- slices.Sort of the keys
unfoldable pub insert_sorted : ℕ → List ℕ → List ℕ
insert_sorted k [] = k ∷ []
insert_sorted k (j ∷ js) = if leb k j then k ∷ j ∷ js else j ∷ insert_sorted k js

unfoldable pub sorted_keys : {A : Type 0} → Map A → List ℕ
unfolding insert_sorted
sorted_keys [] = []
sorted_keys ((k, _) ∷ m) = insert_sorted k (sorted_keys m)

unfoldable pub shard_ids : ShardManager → List ℕ
shard_ids sm = sorted_keys sm.shard_map

abbrev pub with_shard : ShardManager → ℕ → DataShard → ShardManager
with_shard sm shard_idx ds = record sm { shard_map = insert shard_idx ds sm.shard_map }

unfoldable pub add_data_shard : ℕ → Exec ShardManager (Unit {0})
add_data_shard shard_idx sm = elim (lookup shard_idx sm.shard_map) [
  | some ds ↦ (err shard_exists, sm)
  | none ↦
      then_do (new_data_shard shard_idx sm.kv_size sm.kv_entries sm.chunk_size, sm)
        λ ds s. (ok tt, with_shard s shard_idx ds)
]

-- The shard that the first chunk of a file falls into.
abbrev pub shard_of_file : ShardManager → DataFile → ℕ
shard_of_file sm df = df.chunk_idx_start / sm.chunks_per_kv / sm.kv_entries

abbrev add_to_shard : ℕ → DataFile → DataShard → Exec ShardManager (Unit {0})
add_to_shard shard_idx df ds sm =
    let (r, ds') = add_data_file df ds in (r, with_shard sm shard_idx ds')

unfoldable pub add_data_file_to : DataFile → Exec ShardManager (Unit {0})
add_data_file_to df sm = elim (lookup (shard_of_file sm df) sm.shard_map) [
  | none ↦ (err shard_not_found, sm)
  | some ds ↦ add_to_shard (shard_of_file sm df) df ds sm
]

unfoldable pub add_data_file_and_shard : DataFile → Exec ShardManager (Unit {0})
add_data_file_and_shard df sm = elim (lookup (shard_of_file sm df) sm.shard_map) [
  | none ↦
      then_do (new_data_shard (shard_of_file sm df) sm.kv_size sm.kv_entries sm.chunk_size, sm)
        λ ds s. add_to_shard (shard_of_file s df) df ds s
  | some ds ↦ add_to_shard (shard_of_file sm df) df ds sm
]

unfoldable pub get_shard_miner : ShardManager → ℕ → Option (List ℕ)
get_shard_miner sm shard_idx = elim (lookup shard_idx sm.shard_map) [
  | none ↦ none
  | some ds ↦ some (Shard.miner ds)
]

-- Without the shard the encode type is NO_ENCODE, with the flag false.
unfoldable pub get_shard_encode_type : ShardManager → ℕ → ℕ × Bool
get_shard_encode_type sm shard_idx = elim (lookup shard_idx sm.shard_map) [
  | none ↦ (no_encode, false)
  | some ds ↦ (Shard.encode_type ds, true)
]

-- Some shard is not complete; `none` if the fuel of its test ran out.
all_complete : Map DataShard → Option (Outcome (Unit {0}))
all_complete [] = some (ok tt)
all_complete ((_, ds) ∷ m) =
    let rest = all_complete m in
    elim (Shard.is_complete ds) [
      | none ↦ none
      | some true ↦ rest
      | some false ↦ some (err shard_not_complete)
    ]

unfoldable pub is_complete : ShardManager → Option (Outcome (Unit {0}))
unfolding all_complete
is_complete sm = all_complete sm.shard_map
