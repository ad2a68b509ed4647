-- ===== src/Downloader/Blocks.antt =====
-- The blobs of events by their blocks (ethstorage/downloader/downloader.go, eventsToBlocks).
use mathlib.Core.List.{append_assoc, append-nil}
use es_node.Prelude.{
  ℕ, ◌<◌, ◌≡◌, refl, sym, ap, ◌∙◌, Bool-cases, true, false, inl, inr, List, [], ◌∷◌, ◌++◌, ◌==◌,
  ==_iff, arith, if◌then◌else◌,
}
use es_node.Outcome.{Outcome, ok}
use es_node.Downloader.{
  Blob, BlockBlobs, Event, blob_of, add_to_last, group_events, events_to_blocks,
}

-- The blobs of the blocks, each with the number of its block.
abbrev with_number : ℕ → List Blob → List (ℕ × Blob)
with_number n [] = []
with_number n (b ∷ bs) = (n, b) ∷ with_number n bs

unfoldable pub numbered : List BlockBlobs → List (ℕ × Blob)
numbered [] = []
numbered (block ∷ blocks) = with_number block.number block.blobs ++ numbered blocks

-- What events announce: a blob of a block, whose number is not 0.
abbrev pub Announce : List Event → List (ℕ × Blob) → Type 0
Announce [] [] = Unit
Announce [] (_ ∷ _) = ⊥
Announce (_ ∷ _) [] = ⊥
Announce (event ∷ events) ((n, b) ∷ rest) =
    (0 < event.block_number)
    × (event.block_number ≡ n)
    × (blob_of event ≡ ok b)
    × Announce events rest

unfoldable pub numbers : List BlockBlobs → List ℕ
numbers [] = []
numbers (block ∷ blocks) = block.number ∷ numbers blocks

-- The numbers without repetitions next to each other, after `last`.
unfoldable pub changes : ℕ → List (ℕ × Blob) → List ℕ
changes last [] = []
changes last ((n, b) ∷ rest) = if last == n then changes n rest else n ∷ changes n rest

numbered-append : (xs ys : List BlockBlobs) → numbered (xs ++ ys) ≡ numbered xs ++ numbered ys
unfolding numbered
numbered-append [] ys = refl
numbered-append (x ∷ xs) ys =
    ap (λ t. with_number x.number x.blobs ++ t) (numbered-append xs ys)
    ∙ sym (append_assoc (with_number x.number x.blobs) (numbered xs) (numbered ys))

numbers-append : (xs ys : List BlockBlobs) → numbers (xs ++ ys) ≡ numbers xs ++ numbers ys
unfolding numbers
numbers-append [] ys = refl
numbers-append (x ∷ xs) ys = ap (λ t. x.number ∷ t) (numbers-append xs ys)

with_number-append :
    (n : ℕ) (bs : List Blob) (b : Blob)
    → with_number n (bs ++ b ∷ []) ≡ with_number n bs ++ (n, b) ∷ []
with_number-append n [] b = refl
with_number-append n (c ∷ bs) b = ap (λ t. (n, c) ∷ t) (with_number-append n bs b)

abbrev grown : BlockBlobs → Blob → BlockBlobs
grown block b = record block { blobs = block.blobs ++ b ∷ [] }

add_to_last-append :
    (b : Blob) (front : List BlockBlobs) (block : BlockBlobs)
    → add_to_last b (front ++ block ∷ []) ≡ ok (front ++ grown block b ∷ [])
unfolding add_to_last
add_to_last-append b [] block = refl
add_to_last-append b (f ∷ []) block = refl
add_to_last-append b (f ∷ g ∷ front) block = rw (add_to_last-append b (g ∷ front) block) refl

numbered-last :
    (front : List BlockBlobs) (block : BlockBlobs) (b : Blob)
    → numbered (front ++ grown block b ∷ [])
      ≡ numbered (front ++ block ∷ []) ++ (block.number, b) ∷ []
unfolding numbered
numbered-last front block b =
    let last = with_number-append block.number block.blobs b in
    numbered-append front (grown block b ∷ [])
    ∙ ap (λ t. numbered front ++ t) (append-nil _ ∙ last)
    ∙ sym (
        ap (λ t. t ++ (block.number, b) ∷ [])
          (numbered-append front (block ∷ [])
            ∙ ap (λ t. numbered front ++ t) (append-nil (with_number block.number block.blobs)))
        ∙ append_assoc (numbered front) (with_number block.number block.blobs)
            ((block.number, b) ∷ []))

numbers-last :
    (front : List BlockBlobs) (block : BlockBlobs) (b : Blob)
    → numbers (front ++ grown block b ∷ []) ≡ numbers (front ++ block ∷ [])
unfolding numbers
numbers-last front block b =
    numbers-append front (grown block b ∷ []) ∙ sym (numbers-append front (block ∷ []))

-- What the loop makes of the blocks before it and of what the events announce.
record Grouped (r : Outcome (List BlockBlobs)) (before : List BlockBlobs) (last : ℕ)
    (announced : List (ℕ × Blob)) : Type 0 where
  blocks : List BlockBlobs
  returned : r ≡ ok blocks
  all_blobs : numbered blocks ≡ numbered before ++ announced
  all_numbers : numbers blocks ≡ numbers before ++ changes last announced

module _ (header_time : ℕ → Outcome ℕ)
    (answers : (n : ℕ) → (time : ℕ) × (header_time n ≡ ok time)) where
  group_events-Grouped :
      (events : List Event) (announced : List (ℕ × Blob)) (front : List BlockBlobs)
      (block : BlockBlobs)
      → Announce events announced
      → Grouped
          (group_events header_time events block.number (front ++ block ∷ []))
          (front ++ block ∷ [])
          block.number
          announced
  unfolding group_events changes numbered numbers
  group_events-Grouped [] [] front block a = record {
    blocks = front ++ block ∷ [];
    returned = refl;
    all_blobs = sym (append-nil _);
    all_numbers = sym (append-nil _);
  }
  group_events-Grouped [] (t ∷ ts) front block a = absurd a
  group_events-Grouped (event ∷ events) [] front block a = absurd a
  group_events-Grouped (event ∷ events) ((n, b) ∷ rest) front block a =
      elim (Bool-cases (block.number == event.block_number)) [
        | inl same ↦
            let ih = group_events-Grouped events rest front (grown block b) a.3 in
            let here : event.block_number ≡ block.number =
              sym ((==_iff block.number event.block_number).0 same) in
            let here_n : n ≡ block.number = sym a.1 ∙ here in
            let kept : (block.number == n) ≡ true = ground arith in
            record {
              blocks = ih.blocks;
              returned = rw (same, a.2, add_to_last-append b front block, here) ih.returned;
              all_blobs =
                  ih.all_blobs
                  ∙ ap (λ t. t ++ rest) (numbered-last front block b)
                  ∙ append_assoc (numbered (front ++ block ∷ [])) ((block.number, b) ∷ []) rest
                  ∙ ap (λ k. numbered (front ++ block ∷ []) ++ (k, b) ∷ rest) (sym here_n);
              all_numbers =
                  rw (kept, here_n)
                    (ih.all_numbers
                      ∙ ap (λ t. t ++ changes block.number rest) (numbers-last front block b));
            }
        | inr other ↦
            let time = (answers event.block_number).0 in
            let opened : BlockBlobs = record {
              timestamp = time;
              number = event.block_number;
              blobs = [];
            } in
            let ih = group_events-Grouped events rest (front ++ block ∷ []) (grown opened b) a.3 in
            let new : (block.number == n) ≡ false = ground arith in
            record {
              blocks = ih.blocks;
              returned =
                  rw
                    (
                      other,
                      (answers event.block_number).1,
                      a.2,
                      add_to_last-append b (front ++ block ∷ []) opened,
                    )
                    ih.returned;
              all_blobs =
                  ih.all_blobs
                  ∙ ap (λ t. t ++ rest) (numbered-last (front ++ block ∷ []) opened b)
                  ∙ ap (λ t. (t ++ (event.block_number, b) ∷ []) ++ rest)
                      (numbered-append (front ++ block ∷ []) (opened ∷ [])
                        ∙ append-nil (numbered (front ++ block ∷ [])))
                  ∙ append_assoc (numbered (front ++ block ∷ [])) ((event.block_number, b) ∷ [])
                      rest
                  ∙ ap (λ k. numbered (front ++ block ∷ []) ++ (k, b) ∷ rest) a.1;
              all_numbers = rw new (
                  ih.all_numbers
                  ∙ ap (λ t. t ++ changes event.block_number rest)
                      (numbers-last (front ++ block ∷ []) opened b
                        ∙ numbers-append (front ++ block ∷ []) (opened ∷ []))
                  ∙ append_assoc (numbers (front ++ block ∷ [])) (event.block_number ∷ [])
                      (changes event.block_number rest)
                  ∙ ap (λ k. numbers (front ++ block ∷ []) ++ k ∷ changes k rest) a.1);
            }
      ]

  -- If L1 answers every header, and the events announce blobs of blocks other than block 0, then
  -- the events are grouped without an error: the blocks have the announced blobs in their order,
  -- each in a block with the number of its event, and there is a new block exactly where the
  -- number of an event differs from the one before it.
  pub events_to_blocks-groups :
      (events : List Event) (announced : List (ℕ × Blob))
      → Announce events announced
      → (blocks : List BlockBlobs) × (events_to_blocks header_time events ≡ ok blocks)
        × (numbered blocks ≡ announced)
        × (numbers blocks ≡ changes 0 announced)
  unfolding events_to_blocks group_events add_to_last numbered numbers changes
  events_to_blocks-groups [] [] a = ([], refl, refl, refl)
  events_to_blocks-groups [] (t ∷ ts) a = absurd a
  events_to_blocks-groups (event ∷ events) [] a = absurd a
  events_to_blocks-groups (event ∷ events) ((n, b) ∷ rest) a =
      let time = (answers event.block_number).0 in
      let first : BlockBlobs = record {
        timestamp = time;
        number = event.block_number;
        blobs = b ∷ [];
      } in
      let g = group_events-Grouped events rest [] first a.3 in
      let opens : (0 == event.block_number) ≡ false = ground arith in
      let opens_n : (0 == n) ≡ false = ground arith in
      (
        g.blocks,
        rw (opens, (answers event.block_number).1, a.2) g.returned,
        g.all_blobs ∙ ap (λ k. (k, b) ∷ rest) a.1,
        rw opens_n (g.all_numbers ∙ ap (λ k. k ∷ changes k rest) a.1),
      )
