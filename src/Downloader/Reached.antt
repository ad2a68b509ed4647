-- ===== src/Downloader/Reached.antt =====
-- The loop of download (ethstorage/downloader/downloader.go): how it ends.
use es_node.Prelude.{
  ℕ, zero, suc, ◌+◌, ◌*◌, ◌≤◌, ◌<◌, ◌≡◌, ◌⊎◌, refl, sym, ap, subst, ◌∙◌, Bool-cases, true, false,
  inl, inr, List, Option, none, some, ltb, min, arith, if◌then◌else◌, length,
}
use es_node.Outcome.{Error, Outcome, ok, err, panic}
use es_node.Externals.{Externals}
use es_node.Storage.{StorageManager}
use es_node.Downloader.{BlobCache, Event}
use es_node.Downloader.Errors.{
  NoError, Outcome-cases, is_ok, is_err, is_panic, download_range-NoError,
}
use es_node.Downloader.Fetch.{Round, download_range}
use es_node.Downloader.Loops.{
  Downloader, Turn, again, returned, Run, save_progress, save_blobs, download_turn, download_loop,
  download, too_late,
}

-- How a turn up to `head` can end.
data Turned {C : Type 0} (head : ℕ) (d : Downloader C) (r : Run C) : Type 0 where
  waits : r ≡ none → Turned head d r
  stops :
      (t : Outcome Turn) (d' : Downloader C)
      → (t ≡ ok returned) ⊎ (t ≡ panic)
      → r ≡ some (t, d')
      → Turned head d r
  moves :
      (d' : Downloader C)
      → r ≡ some (ok again, d')
      → d'.last_download_block ≡ min (d.last_download_block + 64) head
      → d'.saved_block ≡ some (min (d.last_download_block + 64) head)
      → Turned head d r

module _ (x : Externals) {C : Type 0} (cache : BlobCache C) where
  save_progress-Turned :
      (round : Round) (head count : ℕ) (d d₀ : Downloader C)
      → Turned head d₀
          (some (save_progress x cache round (min (d₀.last_download_block + 64) head) count d))
  unfolding save_progress
  save_progress-Turned round head count d d₀ = elim (Outcome-cases round.put_block) [
    | is_err e h ↦ rw (save_progress, h) (stops _ _ (inl refl) refl)
    | is_panic h ↦ rw (save_progress, h) (stops _ _ (inr refl) refl)
    | is_ok _ h ↦ elim (Outcome-cases round.put_blobs) [
      | is_err e k ↦ rw (save_progress, h, k) (stops _ _ (inl refl) refl)
      | is_panic k ↦ rw (save_progress, h, k) (stops _ _ (inr refl) refl)
      | is_ok _ k ↦ rw (save_progress, h, k) (moves _ refl refl refl)
    ]
  ]

  saved :
      (round : Round) (head count : ℕ) (d d₀ : Downloader C)
      (r : Option (Outcome (Unit {0}) × StorageManager))
      → Turned head d₀ (elim r [
        | none ↦ none
        | some (ok _, s) ↦ some (
            save_progress x cache round
              (min (d₀.last_download_block + 64) head)
              count
              (record d { storage = s }))
        | some (err _, s) ↦ some (ok returned, record d { storage = s })
        | some (panic, s) ↦ some (panic, record d { storage = s })
      ])
  saved round head count d d₀ none = waits refl
  saved round head count d d₀ (some (ok _, s)) =
      save_progress-Turned round head count (record d { storage = s }) d₀
  saved round head count d d₀ (some (err e, s)) = stops _ _ (inl refl) refl
  saved round head count d d₀ (some (panic, s)) = stops _ _ (inr refl) refl

  -- The answers of one turn.
  pub record Answered (round : Round) : Type 0 where
    pub logs : (a b : ℕ) → (events : List Event) × (round.filter_logs a b ≡ ok events)
    pub headers : (n : ℕ) → (time : ℕ) × (round.header_time n ≡ ok time)

  download_turn-Turned :
      (round : Round) (head : ℕ) (d : Downloader C)
      → Answered round
      → Turned head d (download_turn x cache round head d)
  unfolding download_turn save_blobs NoError
  download_turn-Turned round head d a =
      let c =
        download_range-NoError x d.storage.shard_manager round cache (d.last_download_block + 1)
          (min (d.last_download_block + 64) head) d.cache a.logs a.headers in
      elim (Outcome-cases
        (download_range x d.storage.shard_manager round cache (d.last_download_block + 1)
          (min (d.last_download_block + 64) head) false d.cache).0) [
            | is_err e h ↦ absurd (subst NoError h c)
            | is_panic h ↦ rw (download_turn, h) (stops _ _ (inr refl) refl)
            | is_ok blobs h ↦
                rw (download_turn, h)
                  (saved round head (length blobs)
                    (record d {
                      cache =
                          (download_range x d.storage.shard_manager round cache
                            (d.last_download_block + 1) (min (d.last_download_block + 64) head)
                            false d.cache).1;
                    })
                    d _)
          ]

  -- The loop that is at turn n with d gets to turn k with d'.
  pub data Turns (rounds : ℕ → Round) (head k : ℕ) (d' : Downloader C)
      : ℕ → Downloader C → Type 0 where
    arrived : Turns rounds head k d' k d'
    later :
        (n : ℕ) (d d1 : Downloader C)
        → download_turn x cache (rounds n) head d ≡ some (ok again, d1)
        → Turns rounds head k d' (n + 1) d1
        → Turns rounds head k d' n d

  -- How the loop ends: the head is reached, and saved unless there was nothing to do; or the method
  -- returns early, or the program stops; or it gets to a turn in which the goroutines of
  -- DownloadFinished do not end with their schedule, and has no result.
  pub data Ends (rounds : ℕ → Round) (head n : ℕ) (d : Downloader C) (r : Run C) : Type 0 where
    reaches :
        (d' : Downloader C)
        → r ≡ some (ok again, d')
        → d'.last_download_block ≡ head
        → ((d.last_download_block ≡ head) × (d'.saved_block ≡ d.saved_block))
          ⊎ (d'.saved_block ≡ some head)
        → Ends rounds head n d r
    returns :
        (t : Outcome Turn) (d' : Downloader C)
        → (t ≡ ok returned) ⊎ (t ≡ panic)
        → r ≡ some (t, d')
        → Ends rounds head n d r
    hangs :
        (k : ℕ) (d' : Downloader C)
        → r ≡ none
        → Turns rounds head k d' n d
        → ltb d'.last_download_block head ≡ true
        → download_turn x cache (rounds k) head d' ≡ none
        → Ends rounds head n d r

  Ends-later :
      (rounds : ℕ → Round) (head n : ℕ) (d d' : Downloader C) (r : Run C)
      → download_turn x cache (rounds n) head d ≡ some (ok again, d')
      → (d'.last_download_block ≡ head → d'.saved_block ≡ some head)
      → Ends rounds head (n + 1) d' r
      → Ends rounds head n d r
  Ends-later rounds head n d d' r moved saved_there (reaches last e at (inl here)) =
      reaches last e at (inr (here.1 ∙ saved_there here.0))
  Ends-later rounds head n d d' r moved saved_there (reaches last e at (inr there)) =
      reaches last e at (inr there)
  Ends-later rounds head n d d' r moved saved_there (returns t last s e) = returns t last s e
  Ends-later rounds head n d d' r moved saved_there (hangs k last e turns behind stuck) =
      hangs k last e (later n d d' moved turns) behind stuck

  module _ (rounds : ℕ → Round) (answers : (k : ℕ) → Answered (rounds k)) (head : ℕ) where
    download_loop-Ends :
        (fuel n : ℕ) (d : Downloader C)
        → d.last_download_block ≤ head
        → head ≤ d.last_download_block + 64 * fuel
        → Ends rounds head n d (download_loop x cache (suc fuel) n rounds head d)
    unfolding download_loop
    download_loop-Ends zero n d le enough =
        let done : ltb d.last_download_block head ≡ false = ground arith in
        rw (download_loop, done) (reaches d refl (omega arith) (inl (omega arith, refl)))
    download_loop-Ends (suc fuel) n d le enough =
        elim (Bool-cases (ltb d.last_download_block head)) [
          | inr done ↦
              let at : d.last_download_block ≡ head = ground arith in
              rw (download_loop, done) (reaches d refl at (inl (at, refl)))
          | inl more ↦ elim (download_turn-Turned (rounds n) head d (answers n)) [
            | waits e ↦ rw (download_loop, more, e) (hangs n d refl arrived more e)
            | stops t d' (inl s) e ↦
                rw (download_loop, more, e, s) (returns (ok returned) d' (inl refl) refl)
            | stops t d' (inr s) e ↦
                rw (download_loop, more, e, s) (returns panic d' (inr refl) refl)
            | moves d' e last saved_block ↦
                rw (download_loop, more, e)
                  (Ends-later rounds head n d d' _ e (λ h. saved_block ∙ ap some (sym last ∙ h))
                    (download_loop-Ends fuel (n + 1) d' (omega arith) (omega arith)))
          ]
        ]

  cleaned :
      (rounds : ℕ → Round) (d : Downloader C) (r : Run C)
      → Ends rounds d.finalized_head 0 d r
      → Ends rounds d.finalized_head 0 d (elim r [
        | some (ok again, d') ↦
            some (ok again, record d' { cache = cache.cleanup d.finalized_head d'.cache })
        | some (ok returned, d') ↦ some (ok returned, d')
        | some (err e, d') ↦ some (err e, d')
        | some (panic, d') ↦ some (panic, d')
        | none ↦ none
      ])
  cleaned rounds d r (reaches d' e at saved_there) =
      rw e (
        reaches (record d' { cache = cache.cleanup d.finalized_head d'.cache }) refl at saved_there)
  cleaned rounds d r (returns t d' (inl s) e) = rw (e, s) (returns (ok returned) d' (inl refl) refl)
  cleaned rounds d r (returns t d' (inr s) e) = rw (e, s) (returns panic d' (inr refl) refl)
  cleaned rounds d r (hangs k d' e turns behind stuck) = rw e (hangs k d' refl turns behind stuck)

  -- If every round answers the requests for logs and headers, the last downloaded block is at most
  -- the finalized head, and the blobs up to it are not too old, then download, with one turn for
  -- each 64 blocks up to the head and one more, either gets to its end with the head as the last
  -- downloaded block, which is saved unless there was nothing to do; or returns early or panics; or
  -- gives no result, because its turns lead to one, with blocks left, whose DownloadFinished does not
  -- end with its schedule.
  pub download-Ends :
      (rounds : ℕ → Round) (fuel : ℕ) (d : Downloader C)
      → ((k : ℕ) → Answered (rounds k))
      → too_late x cache d.finalized_head d ≡ false
      → d.last_download_block ≤ d.finalized_head
      → d.finalized_head ≤ d.last_download_block + 64 * fuel
      → Ends rounds d.finalized_head 0 d (download x cache (suc fuel) rounds d)
  unfolding download
  download-Ends rounds fuel d answers in_time le enough =
      rw (download, in_time)
        (cleaned rounds d (download_loop x cache (suc fuel) 0 rounds d.finalized_head d)
          (download_loop-Ends rounds answers d.finalized_head fuel 0 d le enough))

  download_loop-none :
      (rounds : ℕ → Round) (head fuel n : ℕ) (d : Downloader C)
      → ((k a b : ℕ) → (e : Error) × ((rounds k).filter_logs a b ≡ err e))
      → d.last_download_block < head
      → download_loop x cache fuel n rounds head d ≡ none
  unfolding download_loop download_turn download_range
  download_loop-none rounds head zero n d fails more = refl
  download_loop-none rounds head (suc fuel) n d fails more =
      let behind : ltb d.last_download_block head ≡ true = ground arith in
      rw
        (
          download_loop,
          behind,
          download_turn,
          download_range,
          (fails n (d.last_download_block + 1) (
              if ltb (min (d.last_download_block + 64) head) (d.last_download_block + 1)
              then d.last_download_block + 1
              else min (d.last_download_block + 64) head)).1,
        )
        (download_loop-none rounds head fuel (n + 1)
          (record d {
            cache =
                (download_range x d.storage.shard_manager (rounds n) cache
                  (d.last_download_block + 1) (min (d.last_download_block + 64) head) false
                  d.cache).1;
          })
          fails more)

  -- While L1 does not answer the requests for logs, download does not return, however many turns
  -- its loop has: with blocks left up to the finalized head that are not too old, it asks again
  -- and again.
  pub download-never :
      (rounds : ℕ → Round) (fuel : ℕ) (d : Downloader C)
      → ((k a b : ℕ) → (e : Error) × ((rounds k).filter_logs a b ≡ err e))
      → too_late x cache d.finalized_head d ≡ false
      → d.last_download_block < d.finalized_head
      → download x cache fuel rounds d ≡ none
  unfolding download
  download-never rounds fuel d fails in_time more =
      rw (download, in_time, download_loop-none rounds d.finalized_head fuel 0 d fails more) refl
