-- ===== src/ChunkCode.antt =====
-- The encoding of chunks: ethstorage/data_file.go (MaskDataInPlace, UnmaskDataInPlace),
-- ethstorage/encoder/encoder.go (Encode), ethstorage/pora/ethash.go (GetMaskData) and
-- ethstorage/data_shard.go (calcEncodeKey, encodeChunk, decodeChunk).
pub mod Masks
pub mod RoundTrip
use es_node.Prelude.{
  ℕ, zero, suc, ◌+◌, ◌-◌, ◌*◌, ◌/◌, ◌%◌, ◌^◌, Bool, true, false, List, [], ◌∷◌, ◌++◌, length, take,
  drop, pad_to, map, get_or, ltb, leb, ◌==◌, not, if◌then◌else◌, bit_xor, u64,
}
use es_node.Prelude.Int.{int64}
use es_node.Outcome.{Outcome, ok, err, panic, ◌>>=◌, size_not_multiple_of_64}
use es_node.BigEndian.{be_bytes, be_value}
use es_node.DataFile.{exceeds, no_encode, encode_keccak_256, encode_ethash, encode_blob_poseidon}
use es_node.Externals.{Externals}

-- The loop of both mask functions: the first bytes of the mask are changed, the rest stays.
unfoldable pub xor_into : List ℕ → List ℕ → List ℕ
xor_into [] user = []
xor_into (m ∷ mask) [] = m ∷ mask
xor_into (m ∷ mask) (u ∷ user) = bit_xor m u ∷ xor_into mask user

unfoldable pub mask_data_in_place : List ℕ → List ℕ → Outcome (List ℕ)
mask_data_in_place mask user =
    if ltb (length mask) (length user) then panic else ok (xor_into mask user)

unfoldable pub unmask_data_in_place : List ℕ → List ℕ → Outcome (List ℕ)
unmask_data_in_place user mask =
    if ltb (length mask) (length user) then panic else ok (take (length user) (xor_into mask user))

-- GetMixBytes()
abbrev pub mix_bytes : ℕ
mix_bytes = 128

-- HashSizeInContract
abbrev pub hash_size_in_contract : ℕ
hash_size_in_contract = 24

module _ (x : Externals) where
  -- The elements that the Poseidon hashes of k + i, k + i + 1 give, for the next `n` values of i.
  unfoldable pub poseidon_elements : ℕ → ℕ → ℕ → List ℕ
  poseidon_elements k i zero = []
  poseidon_elements k i (suc n) =
      let (h0, h1) = x.hash_state (k + i) (k + (i + 1)) in h0 ∷ h1 ∷ poseidon_elements k (i + 1) n

  unfoldable pub concat_bytes : List ℕ → List ℕ
  concat_bytes [] = []
  concat_bytes (e ∷ es) = x.element_bytes e ++ concat_bytes es

  unfoldable pub encode : List ℕ → ℕ → Outcome (List ℕ)
  encode hash size =
      if not (size % 64 == 0)
      then err size_not_multiple_of_64
      else ok
          (concat_bytes (x.fft (poseidon_elements (be_value hash % x.field_order) 0 (size / 64))))

  -- The masks of the rounds i, i + 1, ... of `GetMaskData`: the seed is the key with the round.
  unfoldable pub mask_rounds : ℕ → List ℕ → ℕ → ℕ → List ℕ
  mask_rounds epoch key i zero = []
  mask_rounds epoch key i (suc n) =
      x.hashimoto_for_mask epoch (key ++ be_bytes 8 i) ++ mask_rounds epoch key (i + 1) n

  -- `copy` into the buffer drops what passes its end.
  unfoldable pub get_mask_data : ℕ → List ℕ → ℕ → List ℕ
  get_mask_data epoch key chunk_size =
      pad_to chunk_size (mask_rounds epoch key 0 ((chunk_size + mix_bytes - 1) / mix_bytes))

  -- keccak256(commit || miner || chunkIdx), each of 32 bytes; of the commit 24 bytes are kept.
  unfoldable pub calc_encode_key : List ℕ → ℕ → List ℕ → List ℕ
  calc_encode_key commit chunk_idx miner = x.keccak (
      pad_to 32 (take hash_size_in_contract commit)
      ++ (x.bytes_to_hash miner ++ x.big_to_hash (int64 chunk_idx)))

  -- The XOR loops of ENCODE_KECCAK_256: `j` runs round the key.
  unfoldable pub keccak_xor : List ℕ → ℕ → List ℕ → List ℕ
  keccak_xor key j [] = []
  keccak_xor key j (b ∷ bs) =
      bit_xor b (get_or key j 0) ∷ keccak_xor key (if leb (length key) (j + 1) then 0 else j + 1) bs

  -- The dropped error of `Encode` leaves an empty mask.
  unfoldable pub poseidon_mask : List ℕ → ℕ → List ℕ
  poseidon_mask key size = elim (encode key size) [ ok mask ↦ mask | _ ↦ [] ]

  unfoldable pub encode_chunk : ℕ → List ℕ → ℕ → List ℕ → Outcome (List ℕ)
  encode_chunk chunk_size bs encode_type key =
      if exceeds (length bs) chunk_size
      then panic
      else if encode_type == encode_keccak_256
      then ok (keccak_xor key 0 (pad_to chunk_size bs))
      else if encode_type == no_encode
      then ok (pad_to chunk_size bs)
      else if encode_type == encode_blob_poseidon
      then mask_data_in_place (poseidon_mask key chunk_size) bs
      else if encode_type == encode_ethash
      then mask_data_in_place (get_mask_data 0 key chunk_size) bs
      else panic

  unfoldable pub decode_chunk : ℕ → List ℕ → ℕ → List ℕ → Outcome (List ℕ)
  decode_chunk chunk_size bs encode_type key =
      if exceeds (length bs) chunk_size
      then panic
      else if encode_type == encode_keccak_256
      then ok (keccak_xor key 0 bs)
      else if encode_type == no_encode
      then ok bs
      else if encode_type == encode_blob_poseidon
      then unmask_data_in_place bs (poseidon_mask key chunk_size)
      else if encode_type == encode_ethash
      then unmask_data_in_place bs (get_mask_data 0 key (length bs))
      else panic

-- IsValidEncodeType
unfoldable pub is_valid_encode_type : ℕ → Bool
is_valid_encode_type t =
    if t == encode_keccak_256
    then true
    else if t == no_encode
    then true
    else if t == encode_ethash
    then true
    else false
