-- ===== src/Downloader/Errors.antt =====
-- Which errors downloadRange returns (ethstorage/downloader/downloader.go).
use es_node.Prelude.{
  ℕ, ◌≡◌, refl, Bool, true, false, inl, inr, List, [], ◌∷◌, ◌++◌, Option, none, some, Option-cases,
  length, pad_to, u64, ltb, if◌then◌else◌, ◌==◌,
}
use es_node.Outcome.{Error, Outcome, ok, err, panic, ◌>>=◌, then_do}
use es_node.Externals.{Externals}
use es_node.ChunkCode.{encode_chunk, mask_data_in_place, keccak_xor, poseidon_mask, get_mask_data}
use es_node.DataFile.{exceeds, no_encode, encode_keccak_256, encode_ethash, encode_blob_poseidon}
use es_node.Manager.{ShardManager}
use es_node.Storage.Blobs.{encode_blob}
use es_node.Downloader.{
  Blob, BlockBlobs, Event, BlobCache, blob_of, add_to_last, open_block, group_events,
  events_to_blocks,
}
use es_node.Downloader.Fetch.{
  Round, ByHash, lookup_hash, download_blobs_with_retry, notify_blob_missing, fill_blob, fill_blobs,
  download_blocks, download_range,
}

-- A value or a panic.
unfoldable pub NoError : {A : Type 0} → Outcome A → Type 0
NoError (ok a) = Unit
NoError (err e) = ⊥
NoError panic = Unit

-- The three cases of a result.
pub data Shape {A : Type 0} (r : Outcome A) : Type 0 where
  is_ok : (a : A) → r ≡ ok a → Shape r
  is_err : (e : Error) → r ≡ err e → Shape r
  is_panic : r ≡ panic → Shape r

pub Outcome-cases : {A : Type 0} (r : Outcome A) → Shape r
Outcome-cases (ok a) = is_ok a refl
Outcome-cases (err e) = is_err e refl
Outcome-cases panic = is_panic refl

NoError-ok : {A : Type 0} (a : A) → NoError (ok a)
unfolding NoError
NoError-ok a = tt

NoError-panic : (A : Type 0) → NoError {A = A} panic
unfolding NoError
NoError-panic A = tt

NoError->>= :
    {A B : Type 0} (r : Outcome A) (next : A → Outcome B)
    → NoError r
    → ((a : A) → NoError (next a))
    → NoError (r >>= next)
unfolding NoError
NoError->>= (ok a) next n k = k a
NoError->>= (err e) next n k = absurd n
NoError->>= panic next n k = tt

NoError-then_do :
    {S A B : Type 0} (r : Outcome A) (s : S) (k : A → S → Outcome B × S)
    → NoError r
    → ((a : A) (t : S) → NoError (k a t).0)
    → NoError (then_do (r, s) k).0
unfolding NoError
NoError-then_do (ok a) s k n f = f a s
NoError-then_do (err e) s k n f = absurd n
NoError-then_do panic s k n f = tt

blob_of-NoError : (event : Event) → NoError (blob_of event)
unfolding blob_of
blob_of-NoError event = topics event.topics
  where
    topics : (ts : List (List ℕ)) → NoError (blob_of (record event { topics = ts }))
    topics [] = (NoError-panic _)
    topics (a ∷ []) = (NoError-panic _)
    topics (a ∷ b ∷ []) = (NoError-panic _)
    topics (a ∷ b ∷ c ∷ []) = (NoError-panic _)
    topics (a ∷ b ∷ c ∷ d ∷ ts) = NoError-ok _

add_to_last-NoError : (b : Blob) (blocks : List BlockBlobs) → NoError (add_to_last b blocks)
unfolding add_to_last
add_to_last-NoError b [] = (NoError-panic _)
add_to_last-NoError b (block ∷ []) = NoError-ok _
add_to_last-NoError b (block ∷ next ∷ blocks) =
    NoError->>= (add_to_last b (next ∷ blocks)) _ (add_to_last-NoError b (next ∷ blocks))
      (λ r. NoError-ok _)

NoError-if :
    {A : Type 0} (t : Bool) (a b : Outcome A) → NoError a → NoError b → NoError (if t then a else b)
NoError-if true a b p q = p
NoError-if false a b p q = q

mask_data_in_place-NoError : (mask bs : List ℕ) → NoError (mask_data_in_place mask bs)
unfolding mask_data_in_place
mask_data_in_place-NoError mask bs = NoError-if _ _ _ (NoError-panic _) (NoError-ok _)

encode_chunk-NoError :
    (x : Externals) (cs : ℕ) (bs : List ℕ) (t : ℕ) (key : List ℕ)
    → NoError (encode_chunk x cs bs t key)
unfolding encode_chunk
encode_chunk-NoError x cs bs t key = NoError-if (exceeds (length bs) cs) _ _ (NoError-panic _) (
    NoError-if (t == encode_keccak_256) _ _ (NoError-ok (keccak_xor x key 0 (pad_to cs bs))) (
      NoError-if (t == no_encode) _ _ (NoError-ok (pad_to cs bs)) (
        NoError-if (t == encode_blob_poseidon) _ _
          (mask_data_in_place-NoError (poseidon_mask x key cs) bs)
          (NoError-if (t == encode_ethash) _ _
            (mask_data_in_place-NoError (get_mask_data x 0 key cs) bs) (NoError-panic _)))))

module _ (header_time : ℕ → Outcome ℕ)
    (answers : (n : ℕ) → (time : ℕ) × (header_time n ≡ ok time)) where
  open_block-NoError :
      (event : Event) (last : ℕ) (blocks : List BlockBlobs)
      → NoError (open_block header_time event last blocks)
  open_block-NoError event last blocks =
      NoError-if (last == event.block_number) _ _ (NoError-ok _)
        (rw (answers event.block_number).1 (NoError-ok _))

  group_events-NoError :
      (events : List Event) (last : ℕ) (blocks : List BlockBlobs)
      → NoError (group_events header_time events last blocks)
  unfolding group_events
  group_events-NoError [] last blocks = NoError-ok _
  group_events-NoError (event ∷ events) last blocks =
      NoError->>= (open_block header_time event last blocks) _
        (open_block-NoError event last blocks)
        (λ opened. NoError->>= (blob_of event) _ (blob_of-NoError event) (λ b.
          NoError->>= (add_to_last b opened) _ (add_to_last-NoError b opened)
            (λ filled. group_events-NoError events event.block_number filled)))

attempts-retried :
    (r : Outcome ByHash) → NoError (elim r [ ok found ↦ ok found | err _ ↦ ok [] | panic ↦ panic ])
attempts-retried (ok found) = NoError-ok _
attempts-retried (err e) = NoError-ok _
attempts-retried panic = (NoError-panic _)

module _ (x : Externals) (sm : ShardManager) (round : Round) where
  notify-NoError : (sent : Bool) → NoError (notify_blob_missing sent)
  notify-NoError true = NoError-ok _
  notify-NoError false = (NoError-panic _)

  found-NoError :
      (b : Blob) (o : Option (List ℕ))
      → NoError {A = Option (List ℕ)} (elim o [
        | none ↦ notify_blob_missing (round.mail_sent b) >>= λ _. ok none
        | some bytes ↦
            encode_blob x sm bytes b.hash (u64 b.kv_index) sm.kv_size >>= λ coded. ok (some coded)
      ])
  unfolding encode_blob
  found-NoError b none =
      NoError->>= (notify_blob_missing (round.mail_sent b)) _ (notify-NoError (round.mail_sent b))
        (λ _. NoError-ok _)
  found-NoError b (some bytes) =
      NoError->>= (encode_blob x sm bytes b.hash (u64 b.kv_index) sm.kv_size) _
        (encode_chunk-NoError x sm.kv_size bytes _ _) (λ _. NoError-ok _)

  fill_blob-NoError : (found : ByHash) (b : Blob) → NoError (fill_blob x sm round found b)
  unfolding fill_blob
  fill_blob-NoError found b =
      NoError-if _ _ _ (found-NoError b (lookup_hash b.hash found)) (NoError-ok _)

  fill_blobs-NoError : (found : ByHash) (bs : List Blob) → NoError (fill_blobs x sm round found bs)
  unfolding fill_blobs
  fill_blobs-NoError found [] = NoError-ok _
  fill_blobs-NoError found (b ∷ bs) =
      NoError->>= (fill_blob x sm round found b) _ (fill_blob-NoError found b) (λ filled.
        NoError->>= (fill_blobs x sm round found bs) _ (fill_blobs-NoError found bs)
          (λ others. NoError-ok _))

  retry-NoError : (ask : ℕ → Outcome ByHash) → NoError (download_blobs_with_retry ask)
  unfolding download_blobs_with_retry
  retry-NoError ask = attempts-retried _

  module _ {C : Type 0} (cache : BlobCache C) where
    download_blocks-NoError :
        (blocks : List BlockBlobs) (blobs : List Blob) (c : C)
        → NoError (download_blocks x sm round cache false blocks blobs c).0
    unfolding download_blocks
    download_blocks-NoError [] blobs c = NoError-ok _
    download_blocks-NoError (block ∷ blocks) blobs c =
        elim (Option-cases (cache.blobs block.number c)) [
          | inl missing ↦
              rw (download_blocks, missing)
                (NoError-then_do _ c _
                  (NoError->>= (download_blobs_with_retry (round.download_blobs block)) _
                    (retry-NoError (round.download_blobs block))
                    (λ found. fill_blobs-NoError found block.blobs))
                  (λ filled c'. download_blocks-NoError blocks (blobs ++ filled.1) c'))
          | inr cached ↦
              rw (download_blocks, cached.1) (download_blocks-NoError blocks (blobs ++ cached.0) c)
        ]

    -- Where the logs and the headers are answered, downloadRange for the shards fails with no error.
    pub download_range-NoError :
        (start end : ℕ) (c : C)
        → ((a b : ℕ) → (events : List Event) × (round.filter_logs a b ≡ ok events))
        → ((n : ℕ) → (time : ℕ) × (round.header_time n ≡ ok time))
        → NoError (download_range x sm round cache start end false c).0
    unfolding download_range events_to_blocks
    download_range-NoError start end c logs headers =
        NoError-then_do _ c _
          (NoError->>= (round.filter_logs start (if ltb end start then start else end)) _
            (rw (logs start (if ltb end start then start else end)).1 (NoError-ok _))
            (λ found. group_events-NoError round.header_time headers found 0 []))
          (λ blocks c'. download_blocks-NoError blocks [] c')
