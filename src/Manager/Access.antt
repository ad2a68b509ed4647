-- ===== src/Manager/Access.antt =====
-- ethstorage/shard_manager.go: reading, writing and coding values in the shard of an entry.
use es_node.Prelude.{
  ℕ, zero, suc, ◌+◌, ◌-◌, ◌/◌, ◌%◌, min, Bool, true, false, List, [], ◌++◌, Option, none, some,
  length, pad_to, ◌==◌, if◌then◌else◌, ◌+64◌, ◌*64◌,
}
use es_node.Outcome.{Outcome, ok, err, panic, ◌>>=◌, Exec}
use es_node.Externals.{Externals}
use es_node.ChunkCode.{calc_encode_key, encode_chunk, decode_chunk}
use es_node.Shard
use es_node.Shard.{DataShard}
use es_node.Shard.Access
use es_node.Shard.Access.{Coder, plain, sub_slice, write_with}
use es_node.Manager.{ShardManager, lookup, with_shard}

-- The shard that manages an entry.
abbrev pub shard_of : ShardManager → ℕ → ℕ
shard_of sm kv_idx = kv_idx / sm.kv_entries

abbrev pub find_shard : ShardManager → ℕ → Option DataShard
find_shard sm kv_idx = lookup (shard_of sm kv_idx) sm.shard_map

-- A write goes to the shard of the entry, which the map holds by reference.
abbrev pub on_found : Option DataShard → ℕ → Exec DataShard (Unit {0}) → Exec ShardManager Bool
on_found none shard_idx op sm = (ok false, sm)
on_found (some ds) shard_idx op sm =
    let (r, ds') = op ds in (r >>= λ _. ok true, with_shard sm shard_idx ds')

abbrev on_shard : ℕ → Exec DataShard (Unit {0}) → Exec ShardManager Bool
on_shard kv_idx op sm = on_found (find_shard sm kv_idx) (shard_of sm kv_idx) op sm

-- A read of the shard of the entry.
abbrev pub from_found :
    {A : Type 0} → Option DataShard → (DataShard → Outcome A) → Outcome (Option A)
from_found none op = ok none
from_found (some ds) op = op ds >>= λ a. ok (some a)

abbrev from_shard : {A : Type 0} → ShardManager → ℕ → (DataShard → Outcome A) → Outcome (Option A)
from_shard sm kv_idx op = from_found (find_shard sm kv_idx) op

unfoldable pub try_write_encoded : ℕ → List ℕ → List ℕ → Exec ShardManager Bool
try_write_encoded kv_idx b commit = on_shard kv_idx (write_with kv_idx b commit plain)

-- The chunks i, i + 1, ... of `b`, `n` of them, coded while bytes are left.
unfoldable pub code_chunks : Coder → ℕ → List ℕ → ℕ → ℕ → ℕ → ℕ → Outcome (List ℕ)
code_chunks coder cs b base i zero left = ok []
code_chunks coder cs b base i (suc n) left =
    let len = min left cs in
    let rest = code_chunks coder cs b base (i + 1) n (left - len) in
    if left == 0 then ok [] else (do
      cdata ← sub_slice b (i *64 cs) (i *64 cs +64 len)
      coded ← coder cdata (base +64 i)
      tail ← rest
      ok (coded ++ tail))

module _ (x : Externals) where
  unfoldable pub try_write : ℕ → List ℕ → List ℕ → Exec ShardManager Bool
  try_write kv_idx b commit = on_shard kv_idx (Access.write x kv_idx b commit)

  unfoldable pub try_read : ShardManager → ℕ → ℕ → List ℕ → Outcome (Option (List ℕ))
  try_read sm kv_idx read_len commit =
      from_shard sm kv_idx (λ ds. Access.read x ds kv_idx read_len commit)

  unfoldable pub try_read_with_meta : ShardManager → ℕ → ℕ → Outcome (Option (List ℕ × List ℕ))
  try_read_with_meta sm kv_idx read_len =
      from_shard sm kv_idx (λ ds. Access.read_with_meta x ds kv_idx read_len)

  -- One chunk of a value under the given provider and encode type.
  abbrev pub kv_coder : Bool → ℕ → List ℕ → List ℕ → ℕ → Coder
  kv_coder encode cs hash provider t cdata chunk_idx =
      if encode
      then encode_chunk x cs cdata t (calc_encode_key x hash chunk_idx provider)
      else decode_chunk x cs cdata t (calc_encode_key x hash chunk_idx provider)

  unfoldable pub decode_or_encode_kv :
      ShardManager → ℕ → List ℕ → List ℕ → List ℕ → Bool → ℕ → Outcome (Option (List ℕ))
  decode_or_encode_kv sm kv_idx b hash provider encode t = from_shard sm kv_idx λ ds.
      code_chunks (kv_coder encode sm.chunk_size hash provider t) sm.chunk_size b
        (kv_idx *64 ds.chunks_per_kv) 0 ds.chunks_per_kv (length b)

  unfoldable pub encode_kv :
      ShardManager → ℕ → List ℕ → List ℕ → List ℕ → ℕ → Outcome (Option (List ℕ))
  encode_kv sm kv_idx b hash provider t = decode_or_encode_kv sm kv_idx b hash provider true t

  unfoldable pub decode_kv :
      ShardManager → ℕ → List ℕ → List ℕ → List ℕ → ℕ → Outcome (Option (List ℕ))
  decode_kv sm kv_idx b hash provider t = decode_or_encode_kv sm kv_idx b hash provider false t

  abbrev pub encode_found :
      Option DataShard → ShardManager → ℕ → List ℕ → List ℕ → Outcome (Option (List ℕ))
  encode_found none sm kv_idx b hash = ok none
  encode_found (some ds) sm kv_idx b hash =
      encode_kv sm kv_idx (pad_to ds.kv_size b) hash (Shard.miner ds) (Shard.encode_type ds)

  unfoldable pub try_encode_kv : ShardManager → ℕ → List ℕ → List ℕ → Outcome (Option (List ℕ))
  try_encode_kv sm kv_idx b hash = encode_found (find_shard sm kv_idx) sm kv_idx b hash

  unfoldable pub try_read_chunk : ShardManager → ℕ → List ℕ → Outcome (Option (List ℕ))
  try_read_chunk sm chunk_idx commit =
      let kv_idx = chunk_idx / sm.chunks_per_kv in
      let c_idx = chunk_idx % sm.chunks_per_kv in
      from_shard sm kv_idx (λ ds. Access.read_chunk x ds kv_idx c_idx commit)

-- b[:readLen] of what was read, which is nil beside an error: a panic unless readLen is 0.
unfoldable pub try_read_encoded : ShardManager → ℕ → ℕ → Outcome (Option (List ℕ))
try_read_encoded sm kv_idx read_len = from_shard sm kv_idx λ ds.
    elim (Access.read_encoded ds kv_idx read_len) [
      | ok b ↦ sub_slice b 0 read_len
      | err e ↦ if read_len == 0 then err e else panic
      | panic ↦ panic
    ]

unfoldable pub try_read_meta : ShardManager → ℕ → Outcome (Option (List ℕ))
try_read_meta sm kv_idx = from_shard sm kv_idx (λ ds. Shard.read_meta ds.data_files kv_idx)

unfoldable pub try_read_chunk_encoded : ShardManager → ℕ → Outcome (Option (List ℕ))
try_read_chunk_encoded sm chunk_idx =
    let kv_idx = chunk_idx / sm.chunks_per_kv in
    let c_idx = chunk_idx % sm.chunks_per_kv in
    from_shard sm kv_idx (λ ds. Access.read_chunk_encoded ds kv_idx c_idx)

-- The first value of TryReadMeta: nil, or the bytes, which may stand beside an error.
unfoldable pub try_meta_buffer : ShardManager → ℕ → Option (List ℕ)
try_meta_buffer sm kv_idx = elim (find_shard sm kv_idx) [
  | none ↦ none
  | some ds ↦ Shard.meta_buffer ds.data_files kv_idx
]
