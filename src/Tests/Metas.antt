-- ===== src/Tests/Metas.antt =====
-- Metadata and blobs of the storage manager.
use es_node.Prelude.{ℕ, ◌≡◌, refl, List, [], ◌∷◌, replicate}
use es_node.Prelude.Int.{pos}
use es_node.Outcome.{ok}
use es_node.BigEndian.{be_bytes}
use es_node.Manager.{ShardManager, Map, insert}
use es_node.Storage.{StorageManager, contract_meta, index_bytes, set_metas}

abbrev pub no_shards : ShardManager
no_shards = record {
  shard_map = [];
  contract_address = replicate 20 6;
  kv_size_bits = 7;
  kv_size = 128;
  chunks_per_kv_bits = 1;
  chunks_per_kv = 2;
  kv_entries_bits = 1;
  kv_entries = 2;
  chunk_size = 64;
  chunk_size_bits = 6;
}

-- Three entries, of which the last is known.
abbrev pub three_entries : StorageManager
three_entries = record {
  download_thread_num = 1;
  shard_manager = no_shards;
  local_l1 = pos 5;
  kv_entry_count = 3;
  blob_metas = (2, replicate 32 7) ∷ [];
}

abbrev indices : List ℕ
indices = 0 ∷ 1 ∷ []

abbrev commits : List (List ℕ)
commits = replicate 24 3 ∷ replicate 24 4 ∷ []

abbrev three_metas : Map (List ℕ)
three_metas =
    (2, replicate 32 7)
    ∷ (0, 0 ∷ 0 ∷ 0 ∷ 0 ∷ 0 ∷ 0 ∷ 0 ∷ 0 ∷ replicate 24 3)
    ∷ (1, 0 ∷ 0 ∷ 0 ∷ 0 ∷ 1 ∷ 0 ∷ 0 ∷ 0 ∷ replicate 24 4)
    ∷ []

set_metas-three : set_metas indices commits three_entries.blob_metas ≡ ok three_metas
unfolding set_metas insert contract_meta index_bytes be_bytes
set_metas-three = refl
