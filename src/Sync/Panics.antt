-- ===== src/Sync/Panics.antt =====
-- ethstorage/p2p/protocol/syncclient.go, decodeKV: blobs with an encode type that is not known
-- (ethstorage/data_shard.go, decodeChunk).
use es_node.Prelude.{
  ℕ, zero, suc, ◌-◌, ◌<◌, ◌≡◌, min, false, List, ◌∷◌, length, take, drop, some, ltb, ◌==◌, arith,
  Bool-cases, inl, inr, ◌*64◌, ◌+64◌,
}
use es_node.Outcome.{Outcome, panic, ◌>>=◌}
use es_node.Externals.{Externals}
use es_node.ChunkCode.{decode_chunk, calc_encode_key}
use es_node.Shard.{DataShard}
use es_node.Shard.Access.{Coder, sub_slice}
use es_node.Manager.Access.{find_shard, code_chunks, decode_kv, decode_or_encode_kv, kv_coder}
use es_node.Storage.{StorageManager}
use es_node.Sync.Client.{BlobPayload, decode_payload, sound_blob, accept_all, on_result}

decode_chunk-panic :
    (x : Externals) (size : ℕ) (bs : List ℕ) (t : ℕ) (key : List ℕ)
    → 3 < t
    → decode_chunk x size bs t key ≡ panic
unfolding decode_chunk
decode_chunk-panic x size bs t key h = ground arith

sub_slice-then_panic :
    {A : Type 0} (bs : List ℕ) (lo hi : ℕ) (f : List ℕ → Outcome A)
    → ((b : List ℕ) → f b ≡ panic)
    → (sub_slice bs lo hi >>= f) ≡ panic
unfolding sub_slice
sub_slice-then_panic bs lo hi f h = elim (Bool-cases (ltb hi lo)) [
  | inl wrong ↦ rw wrong
  | inr ordered ↦ elim (Bool-cases (ltb (length bs) hi)) [
    | inl beyond ↦ rw (ordered, beyond)
    | inr inside ↦ rw (ordered, inside) (h (take (hi - lo) (drop lo bs)))
  ]
]

code_chunks-panic :
    (coder : Coder) (cs : ℕ) (b : List ℕ) (base i n left : ℕ)
    → ((bs : List ℕ) (idx : ℕ) → coder bs idx ≡ panic)
    → 0 < n
    → 0 < left
    → code_chunks coder cs b base i n left ≡ panic
unfolding code_chunks
code_chunks-panic coder cs b base i zero left h p q = absurd (omega arith)
code_chunks-panic coder cs b base i (suc n) left h p q =
    let some_left : (left == 0) ≡ false = ground arith in
    rw some_left (
      sub_slice-then_panic b (i *64 cs) (i *64 cs +64 min left cs) _ (λ bs. rw (h bs (base +64 i))))

module _ (x : Externals) (b : BlobPayload) (bs : List BlobPayload) (s : StorageManager)
    (ds : DataShard) (found : find_shard s.shard_manager b.blob_index ≡ some ds)
    (chunks : 0 < ds.chunks_per_kv) (bytes : 0 < length b.encoded_blob)
    (unknown : 3 < b.encode_type) where
  decode_kv-panic :
      decode_kv x s.shard_manager b.blob_index b.encoded_blob b.blob_commit b.miner_address
        b.encode_type
      ≡ panic
  unfolding decode_kv decode_or_encode_kv
  decode_kv-panic =
      let cs = s.shard_manager.chunk_size in
      let coder = kv_coder x false cs b.blob_commit b.miner_address b.encode_type in
      let panics =
        code_chunks-panic coder cs b.encoded_blob (b.blob_index *64 ds.chunks_per_kv) 0
          ds.chunks_per_kv (length b.encoded_blob)
          (λ cdata idx.
            decode_chunk-panic x cs cdata b.encode_type
              (calc_encode_key x b.blob_commit idx b.miner_address) unknown)
          chunks bytes in
      rw (found, panics)

  decode_payload-panic : decode_payload x s b ≡ panic
  unfolding decode_payload
  decode_payload-panic = rw (decode_payload, decode_kv-panic)

  sound_blob-panic : sound_blob x s b ≡ panic
  unfolding sound_blob
  sound_blob-panic = rw (sound_blob, decode_payload-panic)

  accept_all-panic : accept_all x s (b ∷ bs) ≡ panic
  unfolding accept_all
  accept_all-panic = rw (accept_all, sound_blob-panic)

  -- If the first of the blobs that a peer sent has some bytes, is for an entry of a shard of this
  -- node, whose values have chunks, and has an encode type above ENCODE_BLOB_POSEIDON, onResult
  -- panics.
  pub on_result-panic : (on_result x (b ∷ bs) s).0 ≡ panic
  unfolding on_result
  on_result-panic = rw (on_result, accept_all-panic)
