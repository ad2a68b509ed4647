-- ===== src/ChunkCode/Masks.antt =====
-- The lengths of the masks, and that a mask applied twice is gone (ethstorage/data_file.go,
-- ethstorage/encoder/encoder.go, ethstorage/pora/ethash.go).
use es_node.Prelude.{
  ℕ, zero, suc, ◌+◌, ◌*◌, ◌/◌, ◌%◌, ◌≤◌, ◌≡◌, refl, ap, List, [], ◌∷◌, length, length-append,
  length-pad_to, take_all, pad_to, get_or, leb, if◌then◌else◌, arith,
}
use es_node.Prelude.Xor.{bit_xor_undo, bit_xor_undo_right, bit_xor_self}
use es_node.Outcome.{ok}
use es_node.BigEndian.{be_value}
use es_node.Externals.{Externals, Laws}
use es_node.ChunkCode.{
  xor_into, mask_data_in_place, unmask_data_in_place, poseidon_elements, concat_bytes, encode,
  get_mask_data, keccak_xor, poseidon_mask,
}

pub length-xor_into : (mask user : List ℕ) → length (xor_into mask user) ≡ length mask
unfolding xor_into
length-xor_into [] user = refl
length-xor_into (m ∷ mask) [] = refl
length-xor_into (m ∷ mask) (u ∷ user) = ap suc (length-xor_into mask user)

xor_into_self : (mask : List ℕ) → xor_into mask mask ≡ pad_to (length mask) []
unfolding xor_into
xor_into_self [] = refl
xor_into_self (m ∷ mask) = rw (bit_xor_self m, xor_into_self mask)

-- Masked twice, the data come back, filled up with zeros.
pub xor_into_twice :
    (mask user : List ℕ)
    → length user ≤ length mask
    → xor_into mask (xor_into mask user) ≡ pad_to (length mask) user
unfolding xor_into
xor_into_twice [] user h = refl
xor_into_twice (m ∷ mask) [] h = xor_into_self (m ∷ mask)
xor_into_twice (m ∷ mask) (u ∷ user) h =
    rw (bit_xor_undo m u, xor_into_twice mask user (omega arith))

pub unmask-mask :
    (mask user : List ℕ)
    → length user ≤ length mask
    → unmask_data_in_place (xor_into mask user) mask ≡ ok (pad_to (length mask) user)
unfolding unmask_data_in_place
unmask-mask mask user h =
    rw
      (
        length-xor_into mask user,
        xor_into_twice mask user h,
        take_all (length mask) (pad_to (length mask) user)
            (omega (arith, length-pad_to (length mask) user)),
      )
      (ground arith)

pub mask-ok :
    (mask user : List ℕ)
    → length user ≤ length mask
    → mask_data_in_place mask user ≡ ok (xor_into mask user)
unfolding mask_data_in_place
mask-ok mask user h = ground arith

module _ {x : Externals} (l : Laws x) where
  length-poseidon_elements : (k i n : ℕ) → length (poseidon_elements x k i n) ≡ 2 * n
  unfolding poseidon_elements
  length-poseidon_elements k i zero = refl
  length-poseidon_elements k i (suc n) = omega (arith, length-poseidon_elements k (i + 1) n)

  length-concat_bytes : (es : List ℕ) → length (concat_bytes x es) ≡ 32 * length es
  unfolding concat_bytes
  length-concat_bytes [] = refl
  length-concat_bytes (e ∷ es) = omega (
    arith,
    length-append (x.element_bytes e) (concat_bytes x es),
    l.element_length e,
    length-concat_bytes es,
  )

  -- A multiple of 64 bytes is encoded, to as many bytes.
  pub encode_size :
      (key : List ℕ) (size : ℕ)
      → size % 64 ≡ 0
      → (mask : List ℕ) × (encode x key size ≡ ok mask) × (length mask ≡ size)
  unfolding encode
  encode_size key size h =
      let elements = poseidon_elements x (be_value key % x.field_order) 0 (size / 64) in
      (
        concat_bytes x (x.fft elements),
        rw h,
        omega (
          arith,
          length-concat_bytes (x.fft elements),
          l.fft_length elements,
          length-poseidon_elements (be_value key % x.field_order) 0 (size / 64),
        ),
      )

  pub length-poseidon_mask :
      (key : List ℕ) (size : ℕ) → size % 64 ≡ 0 → length (poseidon_mask x key size) ≡ size
  length-poseidon_mask key size h =
      let (mask, e, n) = encode_size key size h in rw (poseidon_mask_ok e) n
    where
      poseidon_mask_ok :
          {mask : List ℕ} → encode x key size ≡ ok mask → poseidon_mask x key size ≡ mask
      poseidon_mask_ok e = unfold poseidon_mask in ground arith

  pub length-get_mask_data :
      (epoch : ℕ) (key : List ℕ) (size : ℕ) → length (get_mask_data x epoch key size) ≡ size
  unfolding get_mask_data
  length-get_mask_data epoch key size = length-pad_to size _

  pub length-keccak_xor :
      (key : List ℕ) (j : ℕ) (bs : List ℕ) → length (keccak_xor x key j bs) ≡ length bs
  unfolding keccak_xor
  length-keccak_xor key j [] = refl
  length-keccak_xor key j (b ∷ bs) =
      ap suc (length-keccak_xor key (if leb (length key) (j + 1) then 0 else j + 1) bs)

  pub keccak_xor_twice :
      (key : List ℕ) (j : ℕ) (bs : List ℕ) → keccak_xor x key j (keccak_xor x key j bs) ≡ bs
  unfolding keccak_xor
  keccak_xor_twice key j [] = refl
  keccak_xor_twice key j (b ∷ bs) = rw (
    bit_xor_undo_right b (get_or key j 0),
    keccak_xor_twice key (if leb (length key) (j + 1) then 0 else j + 1) bs,
  )
