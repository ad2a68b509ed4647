-- ===== src/Scanner/Batches.antt =====
-- ethstorage/scanner/worker.go, getKvsInBatch: a batch is a segment of the local entries in the
-- order of the shards.
use native.Mathlib.Nat.{div-add-mod', mod-lt, mul-le-mul_right}
use es_node.Prelude.{
  ℕ, zero, suc, ◌+◌, ◌-◌, ◌*◌, ◌/◌, ◌%◌, ◌^◌, ◌≤◌, ◌<◌, ◌≡◌, refl, sym, ap, ◌∙◌, min, true, false,
  List, [], ◌∷◌, ◌++◌, length, get_or, ltb, leb, ◌==◌, if◌then◌else◌, arith, ◌+64◌, ◌-64◌, ◌*64◌,
  u64_fits,
}
use es_node.Prelude.Quotients.{quotient, remainder, quotient_le, quotient_lt}
use es_node.Outcome.{ok}
use es_node.Scanner.{at, entries_of, entries_at, get_kvs_in_batch}

-- The local entry number j, if every shard is full.
abbrev pub kv_at : List ℕ → ℕ → ℕ → ℕ
kv_at shards kv_entries j = get_or shards (j / kv_entries) 0 *64 kv_entries +64 j % kv_entries

unfoldable pub segment : List ℕ → ℕ → ℕ → ℕ → List ℕ
segment shards kv_entries j zero = []
segment shards kv_entries j (suc n) =
    kv_at shards kv_entries j ∷ segment shards kv_entries (j + 1) n

segment-append :
    (shards : List ℕ) (e j m n : ℕ)
    → segment shards e j (m + n) ≡ segment shards e j m ++ segment shards e (j + m) n
unfolding segment
segment-append shards e j zero n = ground arith
segment-append shards e j (suc m) n =
    let count : suc m + n ≡ suc (m + n) = omega arith in
    let next : j + suc m ≡ j + 1 + m = omega arith in
    rw (count, next) (ap (λ l. kv_at shards e j ∷ l) (segment-append shards e (j + 1) m n))

at-inside : (i : ℕ) (shards : List ℕ) → i < length shards → at i shards ≡ ok (get_or shards i 0)
at-inside i [] h = absurd (omega arith)
at-inside zero (s ∷ ss) h = refl
at-inside (suc i) (s ∷ ss) h = at-inside i ss (omega arith)

entries_of-segment :
    (shards : List ℕ) (e i n k : ℕ)
    → k + n ≤ e
    → entries_of e (get_or shards i 0) n k ≡ segment shards e (i * e + k) n
unfolding entries_of segment
entries_of-segment shards e i zero k h = refl
entries_of-segment shards e i (suc n) k h =
    let q = quotient e i k (omega arith) in
    let r = remainder e i k (omega arith) in
    let next : i * e + k + 1 ≡ i * e + (k + 1) = omega arith in
    rw (q, r, next)
      (ap (λ l. (get_or shards i 0 *64 e +64 k) ∷ l)
        (entries_of-segment shards e i n (k + 1) (omega arith)))

nothing_behind : (xs : List ℕ) → xs ++ [] ≡ xs
nothing_behind [] = refl
nothing_behind (x ∷ xs) = ap (λ l. x ∷ l) (nothing_behind xs)

module _ (shards : List ℕ) (e start_pos start_offset end_pos end_offset : ℕ)
    (some_end : 0 < end_offset) (end_fits : end_offset ≤ e) (there : end_pos < length shards) where
  -- One round of the outer loop.
  entries_at-round :
      (n i from to : ℕ) (es : List ℕ)
      → (if i == start_pos then start_offset else 0) ≡ from
      → (if i == end_pos then end_offset else e) ≡ to
      → from < to
      → to ≤ e
      → i < length shards
      → entries_at shards e start_pos start_offset end_pos end_offset n (i + 1) ≡ ok es
      → entries_at shards e start_pos start_offset end_pos end_offset (suc n) i
        ≡ ok (segment shards e (i * e + from) (to - from) ++ es)
  unfolding entries_at
  entries_at-round n i from to es start fin order fits inside rest =
      let more : ltb from to ≡ true = ground arith in
      rw
        (
          entries_at,
          start,
          fin,
          more,
          at-inside i shards inside,
          rest,
          entries_of-segment shards e i (to - from) from (omega arith),
        )
        refl

  entries_at-segment :
      (n i from : ℕ)
      → i + n ≡ end_pos
      → start_pos ≤ i
      → (if i == start_pos then start_offset else 0) ≡ from
      → from < e
      → i * e + from < end_pos * e + end_offset
      → entries_at shards e start_pos start_offset end_pos end_offset (suc n) i
        ≡ ok (segment shards e (i * e + from) (end_pos * e + end_offset - (i * e + from)))
  unfolding entries_at
  entries_at-segment zero i from last begun start small order =
      let here : i ≡ end_pos = omega arith in
      let test : (i == end_pos) ≡ true = ground arith in
      let same : i * e ≡ end_pos * e = ap (λ n. n * e) here in
      let count : end_pos * e + end_offset - (i * e + from) ≡ end_offset - from = omega arith in
      let fin : (if i == end_pos then end_offset else e) ≡ end_offset = rw test refl in
      entries_at-round zero i from end_offset [] start fin (omega arith) end_fits (omega arith) refl
      ∙ ap ok (
          nothing_behind (segment shards e (i * e + from) (end_offset - from))
          ∙ ap (segment shards e (i * e + from)) (sym count))
  entries_at-segment (suc n) i from last begun start small order =
      let test : (i == end_pos) ≡ false = ground arith in
      let begun' : (i + 1 == start_pos) ≡ false = ground arith in
      let fin : (if i == end_pos then end_offset else e) ≡ e = rw test refl in
      let next : i * e + from + (e - from) ≡ (i + 1) * e + 0 = omega arith in
      let later : (i + 1) * e ≤ end_pos * e = mul-le-mul_right e (omega arith) in
      let count : end_pos * e + end_offset - (i * e + from)
          ≡ (e - from) + (end_pos * e + end_offset - ((i + 1) * e + 0)) =
        omega arith in
      entries_at-round (suc n) i from e
        (segment shards e ((i + 1) * e + 0) (end_pos * e + end_offset - ((i + 1) * e + 0))) start
        fin small (omega arith) (omega arith)
        (entries_at-segment n (i + 1) 0 (omega arith) (omega arith) (rw begun' refl) (omega arith)
          (omega arith))
      ∙ ap ok (
          ap
            (λ j.
              segment shards e (i * e + from) (e - from)
              ++ segment shards e j (end_pos * e + end_offset - ((i + 1) * e + 0)))
            (sym next)
          ∙ sym (
              segment-append shards e (i * e + from) (e - from)
                (end_pos * e + end_offset - ((i + 1) * e + 0)))
          ∙ ap (segment shards e (i * e + from)) (sym count))

-- The first entry of a batch: behind the last one, the scan starts again.
abbrev pub wrapped : ℕ → ℕ → ℕ
wrapped local_kv_count start = if leb local_kv_count start then 0 else start

wrapped-below :
    (local start : ℕ) → 0 < local → (wrapped local start < local) × (wrapped local start ≤ start)
wrapped-below local start p = (ground arith, ground arith)

-- If shards have a size, there are local entries and no more than the shards have room for, and
-- the end of the batch does not wrap, a batch of a positive size is the segment of the local
-- entries that starts where it was asked to, or at 0 when that is behind the last entry, and that
-- has the size of the batch or ends with the last entry. The second result is where it ends.
pub get_kvs_in_batch-segment :
    (shards : List ℕ) (e local_kv_count batch_size start : ℕ)
    → 0 < e
    → 0 < local_kv_count
    → local_kv_count ≤ length shards * e
    → 0 < batch_size
    → start + batch_size < 2 ^ 64
    → get_kvs_in_batch shards e local_kv_count batch_size start
      ≡ ok (
        segment shards e (wrapped local_kv_count start) (
            min (wrapped local_kv_count start + batch_size) local_kv_count
            - wrapped local_kv_count start),
        min (wrapped local_kv_count start + batch_size) local_kv_count,
      )
unfolding get_kvs_in_batch
get_kvs_in_batch-segment shards e local batch_size start p some_local room q fits =
    let b = wrapped local start in
    let below = wrapped-below local start some_local in
    let sum : b +64 batch_size ≡ b + batch_size =
      u64_fits (b + batch_size) (omega (arith, below)) in
    let fin = min (b + batch_size) local in
    let order : b < fin = omega (arith, below) in
    let small : fin < 2 ^ 64 = omega (arith, below) in
    let previous : fin -64 1 ≡ fin - 1 = omega arith in
    let ordered = quotient_le e b (fin - 1) p (omega arith) in
    let inside = quotient_lt e (fin - 1) (length shards) p (omega arith) in
    let whole = div-add-mod' b e in
    let whole' = div-add-mod' (fin - 1) e in
    let fin' : (fin - 1) / e * e + ((fin - 1) % e + 1) ≡ fin = omega (arith, whole') in
    let rounds : (fin - 1) / e + 1 - b / e ≡ suc ((fin - 1) / e - b / e) = omega arith in
    let sized : (e == 0) ≡ false = ground arith in
    let same : (b / e == b / e) ≡ true = ground arith in
    let es =
      entries_at-segment shards e (b / e) (b % e) ((fin - 1) / e) ((fin - 1) % e + 1) (omega arith)
        (omega (arith, mod-lt (fin - 1) p)) inside ((fin - 1) / e - b / e) (b / e) (b % e)
        (omega arith) (omega arith) (rw same refl) (mod-lt b p) (omega (arith, whole, fin')) in
    let es' = rw (whole, fin') at es in
    rw (get_kvs_in_batch, sum, previous, rounds, sized, es') refl
