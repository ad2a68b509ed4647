-- ===== src/Externals.antt =====
-- What the storage code calls and does not implement: hashing, the conversions of go-ethereum's
-- `common.Hash`, the Poseidon hash and the FFT behind the blob encoding, KZG commitments, and the
-- Ethash mask of ethstorage/pora/ethash (a copy of go-ethereum's Ethash). Each law states
-- documented behaviour: the lengths of results, and that a 32-byte string is its own hash value.
use es_node.Prelude.{ℕ, ◌≡◌, List, length}
use es_node.Prelude.Int.{ℤ}
use es_node.Outcome.{Outcome}

pub record Externals : Type 0 where
  -- crypto.Keccak256Hash
  pub keccak : List ℕ → List ℕ
  -- common.BytesToHash, common.BigToHash
  pub bytes_to_hash : List ℕ → List ℕ
  pub big_to_hash : ℤ → List ℕ
  -- constants.Q, and poseidon.HashState of the initial state 0 and two field elements
  pub field_order : ℕ
  pub hash_state : ℕ → ℕ → ℕ × ℕ
  -- fft.FFT with fft.DIF and fft.BitReverse on a slice of elements, and fr.Element.Bytes
  pub fft : List ℕ → List ℕ
  pub element_bytes : ℕ → List ℕ
  -- pora.HashimotoForMaskLight at the size and the cache of an epoch
  pub hashimoto_for_mask : ℕ → List ℕ → List ℕ
  -- kzg4844.BlobToCommitment and eth.KZGToVersionedHash
  pub blob_to_commitment : List ℕ → Outcome (List ℕ)
  pub kzg_to_versioned_hash : List ℕ → List ℕ

pub record Laws (x : Externals) : Type 0 where
  pub keccak_length : (b : List ℕ) → length (x.keccak b) ≡ 32
  pub bytes_to_hash_length : (b : List ℕ) → length (x.bytes_to_hash b) ≡ 32
  pub bytes_to_hash_self : (b : List ℕ) → length b ≡ 32 → x.bytes_to_hash b ≡ b
  pub fft_length : (p : List ℕ) → length (x.fft p) ≡ length p
  pub element_length : (e : ℕ) → length (x.element_bytes e) ≡ 32
  pub mask_length : (epoch : ℕ) (seed : List ℕ) → length (x.hashimoto_for_mask epoch seed) ≡ 128
