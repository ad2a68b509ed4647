-- ===== src/Storage/MetaRanges.antt =====
-- ethstorage/storage_manager.go, downloadMetaInParallel: the ranges of the goroutines, and what
-- is known when all of them are done.
use native.Mathlib.Decide.{dec_lt}
use native.Mathlib.Nat.{mul-le-mul_left}
use es_node.Prelude.{
  ℕ, zero, suc, ◌+◌, ◌-◌, ◌*◌, ◌/◌, ◌^◌, ◌≤◌, ◌<◌, ◌≡◌, refl, sym, ap, subst, ◌∙◌, true, false,
  List, [], ◌∷◌, some, ltb, ◌==◌, if◌then◌else◌, arith, ◌+64◌, ◌-64◌, ◌*64◌, u64_fits, sub64_fits,
}
use es_node.Outcome.{ok}
use es_node.Storage.{StorageManager}
use es_node.Storage.MetaDownload.{Env, parallel_ranges, download_ranges, download_meta_in_parallel}
use es_node.Storage.MetaLoop.{Known, Calm, download_meta_in_range-Known}
use es_node.Sync.Tiles.{Tiles}
use es_node.Sync.Reach.{Tiles-le}

-- The range of the task idx starts at idx * size, and the last one ends at `to`.
parallel_ranges-Tiles :
    (to size idx left : ℕ)
    → 0 < size
    → (idx + suc left) * size ≤ to
    → to + size < 2 ^ 64
    → Tiles (idx * size) to (parallel_ranges to size idx (suc left))
unfolding parallel_ranges
parallel_ranges-Tiles to size idx zero p enough fits =
    let start : idx *64 size ≡ idx * size = u64_fits (idx * size) (omega arith) in
    rw start (refl, omega arith, refl)
parallel_ranges-Tiles to size idx (suc left) p enough fits =
    let start : idx *64 size ≡ idx * size = u64_fits (idx * size) (omega arith) in
    let small : idx * 1 ≤ idx * size = mul-le-mul_left idx p in
    let next : idx +64 1 ≡ idx + 1 = u64_fits (idx + 1) (omega arith) in
    let end : (idx + 1) *64 size ≡ (idx + 1) * size = u64_fits ((idx + 1) * size) (omega arith) in
    let last_one : (suc left == 0) ≡ false = ground arith in
    let end' : (if suc left == 0 then to else (idx +64 1) *64 size) ≡ (idx + 1) * size =
      rw last_one (ap (λ n. n *64 size) next ∙ end) in
    rw (start, end')
      (refl, omega arith, parallel_ranges-Tiles to size (idx + 1) left p (omega arith) fits)

-- For a range that is not empty, a positive batch size and indices that do not wrap: fewer entries
-- than 32 batches are one range from `from` to `to`; with more, the ranges of the goroutines
-- follow each other up to `to`, but from 0 on and not from `from` on.
pub download_ranges-Tiles :
    (batch_size from to : ℕ)
    → 0 < batch_size
    → 32 * batch_size < 2 ^ 64
    → from < to
    → 2 * to < 2 ^ 64
    → (to - from < 32 * batch_size → Tiles from to (download_ranges batch_size from to))
      × (32 * batch_size ≤ to - from → Tiles 0 to (download_ranges batch_size from to))
unfolding download_ranges
download_ranges-Tiles batch_size from to p batch order fits = (few, many)
  where
    total : to -64 from ≡ to - from
    total = sub64_fits to from (omega arith) (omega arith)

    threads : 32 *64 batch_size ≡ 32 * batch_size
    threads = u64_fits (32 * batch_size) batch

    few : to - from < 32 * batch_size → Tiles from to (download_ranges batch_size from to)
    few h =
        let test : ltb (to -64 from) (32 *64 batch_size) ≡ true =
          rw (total, threads) (ground arith) in
        rw (download_ranges, test) (refl, order, refl)

    many : 32 * batch_size ≤ to - from → Tiles 0 to (download_ranges batch_size from to)
    many h =
        let test : ltb (to -64 from) (32 *64 batch_size) ≡ false =
          rw (total, threads) (ground arith) in
        rw (download_ranges, test, total)
          (subst (λ a. Tiles a to (parallel_ranges to ((to - from) / 32) 0 32)) (omega arith)
            (parallel_ranges-Tiles to ((to - from) / 32) 0 31 (omega arith) (omega arith)
              (omega arith)))

-- Ranges that follow each other, each downloaded in a calm environment.
download_meta_in_parallel-Known :
    (meta : ℕ → List ℕ) (envs : ℕ → Env) (calm : (i : ℕ) → Calm meta (envs i))
    (batch_size fuel lo a b : ℕ) (rs : List (ℕ × ℕ)) (i : ℕ) (s : StorageManager)
    → 0 < batch_size
    → b + batch_size < 2 ^ 64
    → b ≤ s.kv_entry_count
    → b < fuel
    → Tiles a b rs
    → Known meta lo a s.blob_metas
    → (s' : StorageManager) × (download_meta_in_parallel envs batch_size fuel i rs s
        ≡ some (ok tt, s'))
      × Known meta lo b s'.blob_metas
unfolding download_meta_in_parallel
download_meta_in_parallel-Known meta envs calm batch_size fuel lo a b [] i s p fits counted enough
      tiles known =
    (s, refl, subst (λ n. Known meta lo n s.blob_metas) tiles known)
download_meta_in_parallel-Known meta envs calm batch_size fuel lo a b ((from, to) ∷ rs) i s p fits
      counted enough (e, order, tiles) known =
    let inside : to ≤ b = Tiles-le to b rs tiles in
    let (s1, done, same, now_known) =
      download_meta_in_range-Known meta (envs i) (calm i) batch_size to lo fuel 0 from s p
        (omega arith) (omega arith) (omega arith) (omega arith)
        (subst (λ n. Known meta lo n s.blob_metas) (sym e) known) in
    let (s2, done', all) =
      download_meta_in_parallel-Known meta envs calm batch_size fuel lo to b rs (i + 1) s1 p fits
        (subst (λ n. b ≤ n) (sym same) counted) enough tiles now_known in
    (s2, rw (download_meta_in_parallel, done) done', all)

-- For a range that is not empty and that the entry count covers, a positive batch size and indices
-- that do not wrap, with a contract that answers with its metadata, an L1 and an entry count that
-- stand still, metadata that stays known once it is, and a context that is never cancelled,
-- downloadMetaInParallel returns no error, and afterwards the metadata of every entry from `from`
-- up to `to` is that of the contract.
pub download_ranges-Known :
    (meta : ℕ → List ℕ) (envs : ℕ → Env) (calm : (i : ℕ) → Calm meta (envs i))
    (batch_size from to : ℕ) (s : StorageManager)
    → 0 < batch_size
    → 32 * batch_size < 2 ^ 64
    → from < to
    → 2 * to + batch_size < 2 ^ 64
    → to ≤ s.kv_entry_count
    → (s' : StorageManager) × (download_meta_in_parallel envs batch_size
          (to + 1)
          0
          (download_ranges batch_size from to)
          s
        ≡ some (ok tt, s'))
      × Known meta from to s'.blob_metas
download_ranges-Known meta envs calm batch_size from to s p batch order fits counted =
    elim (dec_lt (to - from) (32 * batch_size)) [
      | yes few ↦
          download_meta_in_parallel-Known meta envs calm batch_size (to + 1) from from to
            (download_ranges batch_size from to) 0 s p (omega arith) counted (omega arith)
            (tiles.0 few) (λ j a b. absurd (omega arith))
      | no many ↦
          let (s', e, all) =
            download_meta_in_parallel-Known meta envs calm batch_size (to + 1) 0 0 to
              (download_ranges batch_size from to) 0 s p (omega arith) counted (omega arith)
              (tiles.1 (omega arith)) (λ j a b. absurd (omega arith)) in
          (s', e, λ j a b. all j (omega arith) b)
    ]
  where
    tiles :
        (to - from < 32 * batch_size → Tiles from to (download_ranges batch_size from to))
        × (32 * batch_size ≤ to - from → Tiles 0 to (download_ranges batch_size from to))
    tiles = download_ranges-Tiles batch_size from to p batch order (omega arith)
