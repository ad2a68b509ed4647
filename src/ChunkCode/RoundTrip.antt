-- ===== src/ChunkCode/RoundTrip.antt =====
-- Encoding and decoding a chunk (ethstorage/data_shard.go, encodeChunk and decodeChunk).
use es_node.Prelude.{
  ℕ, zero, suc, ◌%◌, ◌^◌, ◌≤◌, ◌<◌, ◌≡◌, ap, ◌∙◌, List, length, length-pad_to, pad_to, arith,
}
use es_node.Outcome.{ok}
use es_node.DataFile.Chunks.{exceeds-false}
use es_node.Externals.{Externals, Laws}
use es_node.ChunkCode.{
  xor_into, get_mask_data, poseidon_mask, keccak_xor, encode_chunk, decode_chunk,
}
use es_node.ChunkCode.Masks.{
  length-xor_into, unmask-mask, mask-ok, length-poseidon_mask, length-get_mask_data,
  length-keccak_xor, keccak_xor_twice,
}

-- The sizes that the code encodes: chunks of whole 64-byte pairs of field elements.
pub record IsChunkSize (size : ℕ) : Type 0 where
  pub whole : size % 64 ≡ 0
  pub signed : size < 2 ^ 63

-- `e` encodes `bs`: it has the chunk's size and decodes to the bytes of `bs`, then zeros.
pub record Encodes (x : Externals) (size : ℕ) (bs : List ℕ) (encode_type : ℕ) (key e : List ℕ)
    : Type 0 where
  pub encoded : encode_chunk x size bs encode_type key ≡ ok e
  pub full : length e ≡ size
  pub decoded : decode_chunk x size e encode_type key ≡ ok (pad_to size bs)

module _ {x : Externals} (l : Laws x) (size : ℕ) (w : IsChunkSize size) (bs key : List ℕ)
    (fits : length bs ≤ size) where
  masked : (mask : List ℕ) → length mask ≡ size → length (xor_into mask bs) ≡ size
  masked mask e = length-xor_into mask bs ∙ e

  -- For a chunk size that is a multiple of 64 and fits an int, every supported encode type encodes
  -- bytes that fit the chunk to a full chunk, and decodes it to the bytes with zeros behind them.
  pub decode-encode : (t : ℕ) → t ≤ 3 → (e : List ℕ) × Encodes x size bs t key e
  unfolding encode_chunk decode_chunk
  decode-encode zero h = (
    pad_to size bs,
    record {
      encoded = rw (exceeds-false (length bs) size fits w.signed);
      full = length-pad_to size bs;
      decoded = rw (length-pad_to size bs, exceeds-false size size (omega arith) w.signed);
    },
  )
  decode-encode (suc zero) h = (
    keccak_xor x key 0 (pad_to size bs),
    record {
      encoded = rw (exceeds-false (length bs) size fits w.signed);
      full = length-keccak_xor l key 0 (pad_to size bs) ∙ length-pad_to size bs;
      decoded = rw (
        length-keccak_xor l key 0 (pad_to size bs),
        length-pad_to size bs,
        exceeds-false size size (omega arith) w.signed,
        keccak_xor_twice l key 0 (pad_to size bs),
      );
    },
  )
  decode-encode (suc (suc zero)) h =
      let mask = get_mask_data x 0 key size in
      let m = length-get_mask_data l 0 key size in
      (
        xor_into mask bs,
        record {
          encoded =
              rw (exceeds-false (length bs) size fits w.signed) (mask-ok mask bs (omega arith));
          full = masked mask m;
          decoded =
              rw (masked mask m, exceeds-false size size (omega arith) w.signed)
                (unmask-mask mask bs (omega arith) ∙ ap (λ n. ok (pad_to n bs)) m);
        },
      )
  decode-encode (suc (suc (suc zero))) h =
      let mask = poseidon_mask x key size in
      let m = length-poseidon_mask l key size w.whole in
      (
        xor_into mask bs,
        record {
          encoded =
              rw (exceeds-false (length bs) size fits w.signed) (mask-ok mask bs (omega arith));
          full = masked mask m;
          decoded =
              rw (masked mask m, exceeds-false size size (omega arith) w.signed)
                (unmask-mask mask bs (omega arith) ∙ ap (λ n. ok (pad_to n bs)) m);
        },
      )
  decode-encode (suc (suc (suc (suc t)))) h = absurd (omega arith)
