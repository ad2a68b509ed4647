-- ===== src/Storage/MetaLoop.antt =====
-- ethstorage/storage_manager.go, downloadMetaInRange: when the loop ends, and when it does not.
use es_node.Prelude.{
  ℕ, zero, suc, ◌+◌, ◌-◌, ◌^◌, ◌≤◌, ◌<◌, ◌≡◌, refl, sym, ap, subst, ◌∙◌, min, true, false, List, [],
  ◌∷◌, none, some, ltb, ◌==◌, arith, Bool-cases, inl, inr, ◌+64◌, u64_fits,
}
use native.Mathlib.Decide.{dec_lt}
use es_node.Prelude.Int.{ℤ, pos, negsuc}
use es_node.Outcome.{ok}
use es_node.Manager.{Map, insert, lookup}
use es_node.Manager.Maps.{lookup-insert_self, lookup-insert_ne}
use es_node.Storage.{StorageManager}
use es_node.Storage.MetaDownload.{
  Env, same_block, indices_from, retried, store_metas, download_meta_in_range,
}

-- The metadata of the contract for n indices from i on.
unfoldable pub metas_from : (ℕ → List ℕ) → ℕ → ℕ → List (List ℕ)
metas_from meta zero i = []
metas_from meta (suc n) i = meta i ∷ metas_from meta n (i + 1)

-- The entries from a up to b are known.
abbrev pub Known : (ℕ → List ℕ) → ℕ → ℕ → Map (List ℕ) → Type 0
Known meta a b m = (j : ℕ) → a ≤ j → j < b → lookup j m ≡ some (meta j)

-- What the other goroutines and the contract may do in the meantime: the contract answers with its
-- metadata, L1 and the entry count stay where they are, what is known stays known, and the context
-- is never cancelled.
pub record Calm (meta : ℕ → List ℕ) (env : Env) : Type 0 where
  pub truthful :
      (round attempt n i : ℕ) (l : ℤ)
      → env.ask round attempt (indices_from n i) l ≡ ok (metas_from meta n i)
  pub same_l1 : (round : ℕ) (s : StorageManager) → (env.between round s).local_l1 ≡ s.local_l1
  pub same_count :
      (round : ℕ) (s : StorageManager) → (env.between round s).kv_entry_count ≡ s.kv_entry_count
  pub kept :
      (round : ℕ) (s : StorageManager) (j : ℕ)
      → lookup j s.blob_metas ≡ some (meta j)
      → lookup j (env.between round s).blob_metas ≡ some (meta j)
  pub running : (round : ℕ) → env.cancelled round ≡ false

-- Storing the answer for a batch.
record Stored (meta : ℕ → List ℕ) (n i : ℕ) (m m' : Map (List ℕ)) : Type 0 where
  returned : store_metas (indices_from n i) (metas_from meta n i) m ≡ ok m'
  inside : Known meta i (i + n) m'
  outside : (j : ℕ) → lookup j m ≡ some (meta j) → lookup j m' ≡ some (meta j)

insert-outside :
    (meta : ℕ → List ℕ) (i j : ℕ) (m : Map (List ℕ))
    → lookup j m ≡ some (meta j)
    → lookup j (insert i (meta i) m) ≡ some (meta j)
insert-outside meta i j m h = elim (Bool-cases (i == j)) [
  | inl same ↦
      let e : i ≡ j = ground arith in
      subst (λ k. lookup j (insert k (meta k) m) ≡ some (meta j)) (sym e)
        (lookup-insert_self j (meta j) m)
  | inr other ↦ lookup-insert_ne i j (meta i) m (λ e. ground arith) ∙ h
]

store_metas-Stored :
    (meta : ℕ → List ℕ) (n i : ℕ) (m : Map (List ℕ)) → (m' : Map (List ℕ)) × Stored meta n i m m'
unfolding store_metas indices_from metas_from
store_metas-Stored meta zero i m =
    (m, record { returned = refl; inside = λ j a b. absurd (omega arith); outside = λ j h. h })
store_metas-Stored meta (suc n) i m =
    let (m', s) = store_metas-Stored meta n (i + 1) (insert i (meta i) m) in
    (
      m',
      record {
        returned = s.returned;
        inside = λ j a b. elim (dec_lt i j) [
          | yes later ↦ s.inside j (omega arith) (omega arith)
          | no first ↦
              let e : i ≡ j = omega arith in
              s.outside j (
                subst (λ k. lookup k (insert i (meta i) m) ≡ some (meta k)) e
                  (lookup-insert_self i (meta i) m))
        ];
        outside = λ j h. s.outside j (insert-outside meta i j m h);
      },
    )

same_block_refl : (a : ℤ) → same_block a a ≡ true
same_block_refl (pos n) = ground arith
same_block_refl (negsuc n) = ground arith

module _ (meta : ℕ → List ℕ) (env : Env) (calm : Calm meta env) (batch_size to : ℕ) where
  abbrev limit_of : ℕ → StorageManager → ℕ
  limit_of from s = min (min (from +64 batch_size) to) s.kv_entry_count

  retried-truthful :
      (left attempt round n i : ℕ) (l : ℤ)
      → retried left attempt (λ a. env.ask round a (indices_from n i) l) ≡ ok (metas_from meta n i)
  unfolding retried
  retried-truthful zero attempt round n i l = calm.truthful round attempt n i l
  retried-truthful (suc left) attempt round n i l = rw (retried, calm.truthful round attempt n i l)

  -- A round that stores its batch, and goes on behind it.
  module _ (fuel round from : ℕ) (s : StorageManager) (more : ltb from to ≡ true) (m : Map (List ℕ))
      (stored : Stored meta (limit_of from s - from) from (env.between round s).blob_metas m) where
    abbrev after_round : StorageManager
    after_round = record (env.between round s) { blob_metas = m }

    round-ok :
        download_meta_in_range env batch_size to (suc fuel) round from s
        ≡ download_meta_in_range env batch_size to fuel (round + 1) (limit_of from s) after_round
    unfolding download_meta_in_range
    round-ok =
        let same : same_block s.local_l1 (env.between round s).local_l1 ≡ true =
          ap (same_block s.local_l1) (calm.same_l1 round s) ∙ same_block_refl s.local_l1 in
        rw (
          download_meta_in_range,
          more,
          retried-truthful 10 0 round (limit_of from s - from) from s.local_l1,
          same,
          stored.returned,
          calm.running round,
        )

  limit-bounds :
      (from : ℕ) (s : StorageManager)
      → 0 < batch_size
      → to + batch_size < 2 ^ 64
      → from < to
      → to ≤ s.kv_entry_count
      → (from < limit_of from s) × (limit_of from s ≤ to)
  limit-bounds from s p fits below counted =
      let sum : from +64 batch_size ≡ from + batch_size =
        u64_fits (from + batch_size) (omega arith) in
      rw sum (ground arith, ground arith)

  -- Behind a round everything from lo up to the end of the batch is known.
  after_round-Known :
      (lo from fin : ℕ) (m m' m'' : Map (List ℕ))
      → from ≤ fin
      → Known meta lo from m
      → ((j : ℕ) → lookup j m ≡ some (meta j) → lookup j m' ≡ some (meta j))
      → Stored meta (fin - from) from m' m''
      → Known meta lo fin m''
  after_round-Known lo from fin m m' m'' order known kept stored j a b = elim (dec_lt j from) [
    | yes before ↦ stored.outside j (kept j (known j a before))
    | no within ↦ stored.inside j (omega arith) (omega arith)
  ]

  -- With a contract that answers with its metadata, an L1 and an entry count that stand still,
  -- metadata that stays known once it is, and a context that is never cancelled, for a positive batch
  -- size, a range that does not start behind its end, indices that do not wrap, an entry count that the range does not pass, what lies before
  -- the range known, and more rounds than entries are left,
  -- downloadMetaInRange returns no error, and afterwards the metadata of the contract is known for
  -- the whole range and for what was known before it. The entry count stays.
  pub download_meta_in_range-Known :
      (lo fuel round from : ℕ) (s : StorageManager)
      → 0 < batch_size
      → to + batch_size < 2 ^ 64
      → from ≤ to
      → to ≤ s.kv_entry_count
      → to - from < fuel
      → Known meta lo from s.blob_metas
      → (s' : StorageManager) × (download_meta_in_range env batch_size to fuel round from s
          ≡ some (ok tt, s'))
        × (s'.kv_entry_count ≡ s.kv_entry_count)
        × Known meta lo to s'.blob_metas
  unfolding download_meta_in_range
  download_meta_in_range-Known lo zero round from s p fits order counted enough known =
      absurd (omega arith)
  download_meta_in_range-Known lo (suc fuel) round from s p fits order counted enough known =
      elim (Bool-cases (ltb from to)) [
        | inl more ↦
            let below : from < to = ground arith in
            let bounds = limit-bounds from s p fits below counted in
            let (m, stored) =
              store_metas-Stored meta (limit_of from s - from) from
                (env.between round s).blob_metas in
            let (s', e, same, all) =
              download_meta_in_range-Known lo fuel (round + 1) (limit_of from s)
                (after_round fuel round from s more m stored) p fits bounds.1
                (subst (λ n. to ≤ n) (sym (calm.same_count round s)) counted)
                (omega (arith, bounds.0))
                (after_round-Known lo from (limit_of from s) s.blob_metas
                  (env.between round s).blob_metas m (omega (arith, bounds.0)) known
                  (calm.kept round s) stored) in
            (s', round-ok fuel round from s more m stored ∙ e, same ∙ calm.same_count round s, all)
        | inr ended ↦
            let e : from ≡ to = ground arith in
            (
              s,
              rw (download_meta_in_range, ended),
              refl,
              subst (λ n. Known meta lo n s.blob_metas) e known,
            )
      ]

  -- With a contract that answers with its metadata, an L1 and an entry count that stand still,
  -- metadata that stays known once it is, and a context that is never cancelled: if entries are left,
  -- but the entry count is below the end of the range, downloadMetaInRange never returns, however
  -- many rounds it makes.
  pub download_meta_in_range-none :
      (fuel round from : ℕ) (s : StorageManager)
      → from < to
      → s.kv_entry_count < to
      → download_meta_in_range env batch_size to fuel round from s ≡ none
  unfolding download_meta_in_range
  download_meta_in_range-none zero round from s below dropped = refl
  download_meta_in_range-none (suc fuel) round from s below dropped =
      let more : ltb from to ≡ true = ground arith in
      let (m, stored) =
        store_metas-Stored meta (limit_of from s - from) from (env.between round s).blob_metas in
      let short : limit_of from s ≤ s.kv_entry_count = ground arith in
      round-ok fuel round from s more m stored
      ∙ download_meta_in_range-none fuel (round + 1) (limit_of from s)
          (after_round fuel round from s more m stored) (omega arith)
          (subst (λ n. n < to) (sym (calm.same_count round s)) dropped)
