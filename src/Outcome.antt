-- ===== src/Outcome.antt =====
-- Results of Go functions: a value, one of the errors that ethstorage/data_file.go,
-- data_shard.go, shard_manager.go and storage_manager.go return, or a panic.
use es_node.Prelude.{◌≡◌, refl, ap, Bool, true, false, arith}

pub data Error : Type 0 where
  -- os.File
  file_closed negative_offset end_of_file file_too_large : Error
  -- data_file.go
  chunk_size_too_large len_not_multiple start_not_multiple not_power_of_two : Error
  chunk_not_found read_too_large write_data_too_large sample_not_found : Error
  kv_not_found write_meta_too_large not_full_read : Error
  magic_error unsupported_version unknown_mask_type : Error
  -- data_shard.go
  mismatched_miner mismatched_encode_type mismatched_max_kv_size : Error
  chunk_idx_out_of_range read_len_too_large empty_commit_blob_not_empty : Error
  blob_to_commitment : Error
  -- encoder.go
  size_not_multiple_of_64 : Error
  -- shard_manager.go
  shard_not_found shard_exists shard_not_complete : Error
  -- kzg_prover.go
  invalid_blob_size : Error
  -- scanner/worker.go
  scan_meta_failed scan_not_found scan_canceled : Error
  -- syncserver.go
  blob_not_found : Error
  -- downloader.go
  bad_download_start : Error
  -- miner/worker.go
  mined_ts_too_small : Error
  -- storage_manager.go
  commit_mismatch commit_length : Error
  invalid_params_lens new_l1_too_old blob_encode_failed meta_read_failed : Error
  kv_idx_not_matched blob_write_failed syncing_or_empty meta_not_found : Error
  meta_query_failed no_meta_found local_meta_read_failed local_meta_not_found : Error
  fetch_blob_failed l1_source_failed kv_not_exist : Error

pub data Outcome {ℓ} (A : Type ℓ) : Type ℓ where
  ok : A → Outcome A
  err : Error → Outcome A
  panic : Outcome A

-- Errors and panics end the chain.
infixl 5 ◌>>=◌ ◌>>◌
abbrev pub ◌>>=◌ {ℓ κ} : {A : Type ℓ} {B : Type κ} → Outcome A → (A → Outcome B) → Outcome B
panic >>= next = panic
err e >>= next = err e
ok a >>= next = next a

abbrev pub ◌>>◌ {ℓ} : {B : Type ℓ} → Outcome (Unit {0}) → Outcome B → Outcome B
m >> next = m >>= (λ _. next)

-- `if bad { return e }`
abbrev pub refuse_if : Bool → Error → Outcome (Unit {0})
refuse_if true e = err e
refuse_if false e = ok tt

-- A method that changes its receiver returns what it left, beside an error too.
abbrev pub Exec : Type 0 → Type 0 → Type 0
Exec S A = S → Outcome A × S

-- What follows a fallible step in such a method.
abbrev pub then_do : {S A B : Type 0} → Outcome A × S → (A → S → Outcome B × S) → Outcome B × S
then_do (ok a, s) k = k a s
then_do (err e, s) k = (err e, s)
then_do (panic, s) k = (panic, s)

pub >>=-eq-ok {ℓ κ} :
    {A : Type ℓ} {B : Type κ} (first : Outcome A) (next : A → Outcome B) {r : B}
    → (first >>= next) ≡ ok r
    → (value : A) × (first ≡ ok value) × (next value ≡ ok r)
>>=-eq-ok panic next q = absurd (ground arith)
>>=-eq-ok (err e) next q = absurd (ground arith)
>>=-eq-ok (ok value) next q = (value, refl, q)

pub refuse_if-eq-ok : (b : Bool) (e : Error) {u : Unit {0}} → refuse_if b e ≡ ok u → b ≡ false
refuse_if-eq-ok true e h = absurd (ground arith)
refuse_if-eq-ok false e h = refl

pub ok-injective {ℓ} : {A : Type ℓ} {a b : A} → ok a ≡ ok b → a ≡ b
ok-injective {A} {a} {b} h = ap held h
  where
    held : Outcome A → A
    held (ok x) = x
    held (err e) = a
    held panic = a
