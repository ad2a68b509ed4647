-- ===== src/Scanner/Local.antt =====
-- ethstorage/scanner/worker.go, summaryLocalKvs: the number of local entries, and which they are.
use native.Mathlib.Decide.{dec_lt}
use native.Mathlib.Nat.{
  div-eq_of_lt, mod-eq_of_lt, add-div_left, add-mod_left, div-add-mod', mod-lt, mul-le-mul_right,
}
use es_node.Prelude.{
  ℕ, suc, ◌+◌, ◌-◌, ◌*◌, ◌/◌, ◌%◌, ◌^◌, ◌≤◌, ◌<◌, ◌≡◌, ◌↔◌, refl, sym, ap, ◌∙◌, true, false, List,
  [], ◌∷◌, length, ltb, ◌==◌, if◌then◌else◌, arith, Bool-cases, inl, inr, ◌+64◌,
}
use es_node.Outcome.{ok}
use es_node.Sync.{elem}
use es_node.Sync.Heal.{Ascending}
use es_node.Scanner.{summary_local_kvs}
use es_node.Prelude.Quotients.{quotient, quotient_le}
use es_node.Scanner.Batches.{kv_at}

-- The entry is local: it is in the contract and its shard is one of the shards.
abbrev pub IsLocal : ℕ → ℕ → List ℕ → ℕ → Type 0
IsLocal e last ss kv = (kv ≤ last) × (elem (kv / e) ss ≡ true)

module _ (e last : ℕ) (sized : 0 < e) where
  -- The entries of the local shards up to the last one.
  abbrev chunk : ℕ → ℕ
  chunk s = if s == last / e then last % e + 1 else e

  unfoldable pub local_count : List ℕ → ℕ
  local_count [] = 0
  local_count (s ∷ ss) = let more = local_count ss in if ltb (last / e) s then 0 else chunk s + more

  chunk_le : (s : ℕ) → chunk s ≤ e
  chunk_le s = ground (arith, mod-lt last sized)

  local_count_le : (ss : List ℕ) → local_count ss ≤ length ss * e
  unfolding local_count
  local_count_le [] = omega arith
  local_count_le (s ∷ ss) = elim (Bool-cases (ltb (last / e) s)) [
    | inl empty ↦ rw empty (omega arith)
    | inr some_there ↦ rw some_there (omega (arith, chunk_le s, local_count_le ss))
  ]

  summary_local_kvs-count :
      (ss : List ℕ) (total : ℕ)
      → total + length ss * e < 2 ^ 64
      → summary_local_kvs e last ss total ≡ ok (total + local_count ss)
  unfolding summary_local_kvs local_count
  summary_local_kvs-count [] total fits = ap ok (omega arith)
  summary_local_kvs-count (s ∷ ss) total fits = elim (Bool-cases (ltb (last / e) s)) [
    | inl empty ↦
        let some_size : (e == 0) ≡ false = ground arith in
        rw (some_size, empty) (ap ok (omega arith))
    | inr some_there ↦
        let some_size : (e == 0) ≡ false = ground arith in
        let added : (if s == last / e then total +64 (last % e +64 1) else total +64 e)
            ≡ total + chunk s =
          ground (arith, mod-lt last sized) in
        rw (some_size, some_there, added)
          (summary_local_kvs-count ss (total + chunk s) (omega (arith, chunk_le s))
            ∙ ap ok (omega arith))
  ]

  -- Behind the shard of the last entry nothing is local.
  local_count-beyond :
      (least : ℕ) (ss : List ℕ) → Ascending least ss → last / e < least → local_count ss ≡ 0
  unfolding local_count
  local_count-beyond least [] up h = refl
  local_count-beyond least (s ∷ ss) up h =
      let beyond : ltb (last / e) s ≡ true = ground arith in rw beyond refl

  kv_at-first :
      (s : ℕ) (ss : List ℕ) (j : ℕ) → j < e → s * e + j < 2 ^ 64 → kv_at (s ∷ ss) e j ≡ s * e + j
  kv_at-first s ss j lt fits =
      let q : j / e ≡ 0 = div-eq_of_lt lt in
      let r : j % e ≡ j = mod-eq_of_lt lt in rw (q, r) (omega arith)

  kv_at-later : (s : ℕ) (ss : List ℕ) (j : ℕ) → kv_at (s ∷ ss) e (e + j) ≡ kv_at ss e j
  kv_at-later s ss j =
      let q : (e + j) / e ≡ suc (j / e) = add-div_left j sized ∙ omega arith in
      let r : (e + j) % e ≡ j % e = add-mod_left e j in rw (q, r) refl

  abbrev pub Listed : List ℕ → ℕ → Type 0
  Listed ss kv = (j : ℕ) × (j < local_count ss) × (kv_at ss e j ≡ kv)

  elem-least : (least k : ℕ) (ss : List ℕ) → Ascending least ss → elem k ss ≡ true → least ≤ k
  unfolding elem
  elem-least least k [] up h = absurd (ground arith)
  elem-least least k (s ∷ ss) up h = ground (arith, elem-least (s + 1) k ss)

  chunk-holds : (s kv : ℕ) → s ≡ kv / e → kv ≤ last → kv % e < chunk s
  chunk-holds s kv same below =
      let base : s * e ≡ kv / e * e = ap (λ n. n * e) same in
      elim (Bool-cases (s == last / e)) [
        | inl final ↦
            let same' : s ≡ last / e = ground arith in
            let base' : s * e ≡ last / e * e = ap (λ n. n * e) same' in
            rw final (omega (arith, div-add-mod' kv e, div-add-mod' last e, base, base'))
        | inr full ↦ rw full (mod-lt kv sized)
      ]

  chunk-inside : (s j : ℕ) → s ≤ last / e → j < chunk s → s * e + j ≤ last
  chunk-inside s j le lt = elim (Bool-cases (s == last / e)) [
    | inl final ↦
        let same : s ≡ last / e = ground arith in
        let base : s * e ≡ last / e * e = ap (λ n. n * e) same in
        let lt' = rw final at lt in omega (arith, div-add-mod' last e, base)
    | inr full ↦
        let before : s + 1 ≤ last / e = ground arith in
        let product : (s + 1) * e ≤ last / e * e = mul-le-mul_right e before in
        let lt' = rw full at lt in omega (arith, div-add-mod' last e, product)
  ]

  module _ (fits : last < 2 ^ 64) where
    IsLocal-Listed :
        (least : ℕ) (ss : List ℕ) (kv : ℕ)
        → Ascending least ss
        → IsLocal e last ss kv
        → Listed ss kv
    unfolding elem local_count
    IsLocal-Listed least [] kv up h = absurd (ground arith)
    IsLocal-Listed least (s ∷ ss) kv up h =
        let whole = div-add-mod' kv e in
        let whole' = div-add-mod' last e in
        let ordered = quotient_le e kv last sized h.0 in
        elim (Bool-cases (s == kv / e)) [
          | inl here ↦
              let same : s ≡ kv / e = ground arith in
              let base : s * e ≡ kv / e * e = ap (λ n. n * e) same in
              let some_there : ltb (last / e) s ≡ false = ground arith in
              (
                kv % e,
                rw (local_count, some_there) (omega (arith, chunk-holds s kv same h.0)),
                kv_at-first s ss (kv % e) (mod-lt kv sized) (omega arith) ∙ omega arith,
              )
          | inr other ↦
              let later : elem (kv / e) ss ≡ true = rw (elem, other) at h.1 in
              let (j, lt, e') = IsLocal-Listed (s + 1) ss kv up.1 (h.0, later) in
              let before = elem-least (s + 1) (kv / e) ss up.1 later in
              let some_there : ltb (last / e) s ≡ false = ground arith in
              let full : (s == last / e) ≡ false = ground arith in
              (e + j, rw (local_count, some_there, full) (omega arith), kv_at-later s ss j ∙ e')
        ]

    Listed-IsLocal :
        (least : ℕ) (ss : List ℕ) (kv : ℕ)
        → Ascending least ss
        → Listed ss kv
        → IsLocal e last ss kv
    unfolding elem local_count
    Listed-IsLocal least [] kv up (j, lt, e') = absurd (omega arith)
    Listed-IsLocal least (s ∷ ss) kv up (j, lt, e') = elim (Bool-cases (ltb (last / e) s)) [
      | inl empty ↦ absurd (omega (arith, rw (local_count, empty) at lt))
      | inr some_there ↦
          let lt' : j < chunk s + local_count ss = rw (local_count, some_there) at lt in
          elim (dec_lt j (chunk s)) [
            | yes within ↦
                let below = chunk-inside s j (ground arith) within in
                let here : s * e + j ≡ kv =
                  sym (kv_at-first s ss j (omega (arith, chunk_le s)) (omega arith)) ∙ e' in
                let shard : kv / e ≡ s =
                  ap (λ n. n / e) (sym here) ∙ quotient e s j (omega (arith, chunk_le s)) in
                (omega arith, ground arith)
            | no behind ↦ elim (Bool-cases (s == last / e)) [
              | inl final ↦
                  let none_left = local_count-beyond (s + 1) ss up.1 (ground arith) in
                  absurd (omega arith)
              | inr full ↦
                  let same : chunk s ≡ e = rw full refl in
                  let split : e + (j - e) ≡ j = omega arith in
                  let there : kv_at ss e (j - e) ≡ kv =
                    sym (kv_at-later s ss (j - e)) ∙ ap (kv_at (s ∷ ss) e) split ∙ e' in
                  let (below, among) =
                    Listed-IsLocal (s + 1) ss kv up.1 (j - e, omega arith, there) in
                  (below, ground arith)
            ]
          ]
    ]

    -- If shards have a size, the last index is a `uint64`, and the shards are in ascending order
    -- with room for fewer than 2^64 entries, summaryLocalKvs returns a number n, no larger than
    -- that room, such that an entry is local, which is to be in the contract and in one of the
    -- shards, exactly if it is one of the entries 0 to n - 1 in the order of the shards.
    pub summary_local_kvs-Listed :
        (least : ℕ) (ss : List ℕ)
        → Ascending least ss
        → length ss * e < 2 ^ 64
        → (n : ℕ) × (summary_local_kvs e last ss 0 ≡ ok n)
          × (n ≤ length ss * e)
          × ((kv : ℕ) → IsLocal e last ss kv ↔ ((j : ℕ) × (j < n) × (kv_at ss e j ≡ kv)))
    summary_local_kvs-Listed least ss up room = (
      local_count ss,
      summary_local_kvs-count ss 0 (omega arith) ∙ ap ok (omega arith),
      local_count_le ss,
      λ kv. (IsLocal-Listed least ss kv up, Listed-IsLocal least ss kv up),
    )
