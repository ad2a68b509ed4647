-- ===== src/Tests/World.antt =====
-- A small world: hashes that pad, masks that repeat, one data file with two entries of two chunks.
use es_node.Prelude.{
  ℕ, zero, suc, ◌+◌, ◌*◌, ◌<◌, ◌%◌, ◌≡◌, refl, true, List, [], ◌∷◌, length-replicate, length-pad_to,
  pad_to, pad_to_self, replicate, arith,
}
use es_node.Outcome.{ok}
use es_node.Externals.{Externals, Laws}
use es_node.Disk.{File}
use es_node.DataFile
use es_node.DataFile.{DataFile}
use es_node.DataFile.Valid.{IsValid}
use es_node.Shard
use es_node.Shard.{DataShard}
use es_node.Shard.Files.{has_chunk, has_kv}
use es_node.Shard.RoundTrip.{IsShard, HoldsKv}

abbrev pub world : Externals
world = record {
  keccak = λ b. pad_to 32 b;
  bytes_to_hash = λ b. pad_to 32 b;
  big_to_hash = λ z. replicate 32 1;
  field_order = 97;
  hash_state = λ a b. (a, b);
  fft = λ p. p;
  element_bytes = λ e. replicate 32 (e % 256);
  hashimoto_for_mask = λ epoch seed. replicate 128 7;
  blob_to_commitment = λ b. ok (replicate 32 9);
  kzg_to_versioned_hash = λ c. c;
}

pub world-Laws : Laws world
world-Laws = record {
  keccak_length = λ b. length-pad_to 32 b;
  bytes_to_hash_length = λ b. length-pad_to 32 b;
  bytes_to_hash_self = λ b h. pad_to_self 32 b h;
  fft_length = λ p. refl;
  element_length = λ e. length-replicate 32 (e % 256);
  mask_length = λ epoch seed. length-replicate {A = ℕ} 128 7;
}

abbrev pub disk_file : File
disk_file = record { is_open = true; size = 4480; content = λ p. 0 }

-- Chunks 0 to 3 of 64 bytes, entries 0 and 1 of 128 bytes.
abbrev pub small_file : DataFile
small_file = record {
  file = disk_file;
  chunk_idx_start = 0;
  chunk_idx_len = 4;
  encode_type = 3;
  max_kv_size = 128;
  chunk_size = 64;
  meta_size = 32;
  miner = replicate 20 5;
}

pub small_file-IsValid : IsValid small_file
small_file-IsValid = record {
  opened = refl;
  chunk_pos = omega arith;
  kv_pos = omega arith;
  chunk_le_kv = omega arith;
  meta_bytes = refl;
  start_fits = omega arith;
  start_small = omega arith;
  allocated = omega arith;
  size_fits = omega arith;
}

abbrev pub small_shard : DataShard
small_shard = record {
  shard_idx = 0;
  kv_size = 128;
  chunks_per_kv = 2;
  kv_entries = 2;
  data_files = small_file ∷ [];
  chunk_size = 64;
}

pub small_shard-IsShard : IsShard small_shard
unfolding Shard.encode_type
small_shard-IsShard = record {
  chunk_pos = omega arith;
  chunk_code = record { whole = refl; signed = omega arith };
  whole = refl;
  kv_fits = omega arith;
  files = (record { valid = small_file-IsValid; same_chunk = refl }, tt);
  known_type = omega arith;
}

pub small_shard-HoldsKv : HoldsKv small_shard 1
unfolding Shard.contains has_chunk has_kv DataFile.contains DataFile.contains_kv
small_shard-HoldsKv = record {
  managed = refl;
  indices = omega arith;
  chunks = λ j h. two_chunks j h;
  meta = refl;
}
  where
    two_chunks : (j : ℕ) → j < 2 → has_chunk (small_file ∷ []) (1 * 2 + j) ≡ true
    two_chunks zero h = refl
    two_chunks (suc zero) h = refl
    two_chunks (suc (suc j)) h = absurd (omega arith)

abbrev pub some_commit : List ℕ
some_commit = replicate 32 9
