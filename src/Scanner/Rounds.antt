-- ===== src/Scanner/Rounds.antt =====
-- ethstorage/scanner/worker.go, scanBatch: a batch starts where the one before it ended, so that
-- every local entry comes in one of the next batches.
use native.Mathlib.Decide.{dec_lt}
use es_node.Prelude.{
  ℕ, zero, suc, ◌+◌, ◌-◌, ◌*◌, ◌^◌, ◌≤◌, ◌<◌, ◌≡◌, sym, subst, min, true, List, ◌∷◌, length, arith,
  ◌⊎◌, inl, inr,
}
use es_node.Outcome.{ok}
use es_node.Sync.{elem}
use es_node.Scanner.{get_kvs_in_batch}
use es_node.Scanner.Batches.{kv_at, segment, wrapped, get_kvs_in_batch-segment}

elem-segment :
    (shards : List ℕ) (e n from j : ℕ)
    → from ≤ j
    → j < from + n
    → elem (kv_at shards e j) (segment shards e from n) ≡ true
unfolding elem segment
elem-segment shards e zero from j a b = absurd (omega arith)
elem-segment shards e (suc n) from j a b = elim (dec_lt from j) [
  | yes later ↦ ground (arith, elem-segment shards e n (from + 1) j (omega arith) (omega arith))
  | no here ↦
      let same : from ≡ j = omega arith in
      subst (λ k. elem (kv_at shards e j) (kv_at shards e k ∷ segment shards e (from + 1) n) ≡ true)
        (sym same) (ground arith)
]

module _ (shards : List ℕ) (e local batch_size : ℕ) where
  -- One of the next n batches from `start` on has the local entry number j.
  abbrev pub Reached : ℕ → ℕ → ℕ → Type 0
  Reached zero start j = ⊥
  Reached (suc n) start j =
      (kvs : List ℕ) × (end : ℕ) × (get_kvs_in_batch shards e local batch_size start
        ≡ ok (kvs, end))
      × ((elem (kv_at shards e j) kvs ≡ true) ⊎ Reached n end j)

  module _ (sized : 0 < e) (room : local ≤ length shards * e) (some_batch : 0 < batch_size)
      (fits : local + batch_size < 2 ^ 64) (j : ℕ) (is_local : j < local) where
    -- A round from b, the wrapped start.
    round-Reached :
        (n start b : ℕ)
        → start ≤ local
        → wrapped local start ≡ b
        → b < local
        → (j < b ⊎ min (b + batch_size) local ≤ j → Reached n (min (b + batch_size) local) j)
        → Reached (suc n) start j
    round-Reached n start b le w below next =
        let made =
          subst
            (λ k.
              get_kvs_in_batch shards e local batch_size start
              ≡ ok
                  (segment shards e k (min (k + batch_size) local - k), min (k + batch_size) local))
            w
            (get_kvs_in_batch-segment shards e local batch_size start sized (omega arith) room
              some_batch (omega arith)) in
        (
          segment shards e b (min (b + batch_size) local - b),
          min (b + batch_size) local,
          made,
          elim (dec_lt j b) [
            | yes before ↦ inr (next (inl before))
            | no behind ↦ elim (dec_lt j (min (b + batch_size) local)) [
              | yes within ↦ inl (
                  elem-segment shards e (min (b + batch_size) local - b) b j (omega arith)
                    (omega arith))
              | no after ↦ inr (next (inr (omega arith)))
            ]
          ],
        )

    -- From a start that is not behind j.
    ahead-Reached : (n start : ℕ) → start ≤ j → j - start < n → Reached n start j
    ahead-Reached zero start le enough = absurd (omega arith)
    ahead-Reached (suc n) start le enough =
        let w : wrapped local start ≡ start = ground arith in
        round-Reached n start start (omega arith) w (omega arith) (λ c. elim c [
          | inl before ↦ absurd (omega arith)
          | inr after ↦ ahead-Reached n (min (start + batch_size) local) after (omega arith)
        ])

    -- From a start behind j, or from the end.
    any-Reached : (n start : ℕ) → start ≤ local → local - start + j + 1 < n → Reached n start j
    any-Reached zero start le enough = absurd (omega arith)
    any-Reached (suc n) start le enough = elim (dec_lt start local) [
      | yes more ↦
          let w : wrapped local start ≡ start = ground arith in
          round-Reached n start start le w more
            (λ c. any-Reached n (min (start + batch_size) local) (omega arith) (omega arith))
      | no ended ↦
          let w : wrapped local start ≡ 0 = ground arith in
          round-Reached n start 0 le w (omega arith) (λ c. elim c [
            | inl before ↦ absurd (omega arith)
            | inr after ↦ ahead-Reached n (min (0 + batch_size) local) after (omega arith)
          ])
    ]

    -- If shards have a size and room for the local entries, the batch size is positive and its
    -- sum with the number of local entries does not wrap, then from every start up to that
    -- number, each batch starting where the one before it ended, each local entry is in one of
    -- the next batches, at most two more than twice the number of local entries.
    pub every_entry-Reached : (start : ℕ) → start ≤ local → Reached (2 * local + 2) start j
    every_entry-Reached start le = any-Reached (2 * local + 2) start le (omega arith)
