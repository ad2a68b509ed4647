-- ===== src/Scanner/Stats.antt =====
-- ethstorage/scanner/worker.go and scanner.go: what a scan and a repair leave in the statistics.
use es_node.Prelude.{
  ℕ, zero, suc, ◌+◌, ◌≤◌, Bool, ◌≡◌, ◌≢◌, refl, ap, subst, ◌∙◌, true, false, ◌&&◌, List, [], ◌∷◌,
  Option, none, some, get_elem?, ◌==◌, arith, Bool-cases, Option-cases, some-injective, inl, inr,
}
use es_node.Outcome.{Error, Outcome, ok, err, panic, ok-injective}
use es_node.Externals.{Externals}
use es_node.Manager.{Map, lookup}
use es_node.Manager.Maps.{lookup-insert_self, lookup-insert_ne}
use es_node.Storage.{StorageManager, remove}
use es_node.Storage.Metas.{lookup-remove_ne}
use es_node.Sync.{elem}
use es_node.Sync.Heal.{elem-insert_sorted}
use es_node.Downloader.Errors.{Outcome-cases, is_ok, is_err, is_panic}
use es_node.Scanner.Repair.{
  ScanMode, unreadable, pending, Scanned, update_stats, to_fix, need_fix, is_pending, was_failed,
  is_commit_mismatch, meta_commit, check_kv, scan_kv, scan_metas,
}

-- No entry is recorded twice.
abbrev pub Unique : Map Scanned → Type 0
Unique [] = Unit
Unique ((k, sc) ∷ m) = (lookup k m ≡ none) × Unique m

abbrev pub Recorded : ℕ → Map Scanned → Type 0
Recorded kv m = (sc : Scanned) × (lookup kv m ≡ some sc)

pub lookup-remove_self : (k : ℕ) (m : Map Scanned) → Unique m → lookup k (remove k m) ≡ none
unfolding lookup remove
lookup-remove_self k [] u = refl
lookup-remove_self k ((j, sc) ∷ m) u = elim (Bool-cases (j == k)) [
  | inl same ↦ let e : j ≡ k = ground arith in rw same (subst (λ n. lookup n m ≡ none) e u.0)
  | inr other ↦ rw (other, lookup, other) (lookup-remove_self k m u.1)
]

-- An entry that wants repair is among the ones to repair.
pub need_fix-elem :
    (now kv : ℕ) (sc : Scanned) (m : Map Scanned)
    → lookup kv m ≡ some sc
    → to_fix now sc ≡ true
    → elem kv (need_fix now m) ≡ true
unfolding lookup need_fix
need_fix-elem now kv sc [] h w = absurd (ground arith)
need_fix-elem now kv sc ((k, s) ∷ m) h w = elim (Bool-cases (k == kv)) [
  | inl same ↦
      let e : s ≡ sc = some-injective (rw (lookup, same) at h) in
      let wanted : to_fix now s ≡ true = ap (to_fix now) e ∙ w in
      rw wanted (elem-insert_sorted kv k (need_fix now m) ∙ rw same refl)
  | inr other ↦
      let there = need_fix-elem now kv sc m (rw (lookup, other) at h) w in
      elim (Bool-cases (to_fix now s)) [
        | inl wanted ↦ rw wanted (elem-insert_sorted kv k (need_fix now m) ∙ rw other there)
        | inr settled ↦ rw settled there
      ]
]

pub update_stats-other :
    (kv j : ℕ) (mark : Option Scanned) (m : Map Scanned)
    → kv ≢ j
    → lookup j (update_stats kv mark m) ≡ lookup j m
unfolding update_stats
update_stats-other kv j none m ne = lookup-remove_ne kv j m ne
update_stats-other kv j (some sc) m ne =
    elim (Bool-cases (is_pending sc.status && was_failed (lookup kv m))) [
      | inl kept ↦ rw kept refl
      | inr set ↦ rw set (lookup-insert_ne kv j sc m ne)
    ]

was_failed-Recorded : (kv : ℕ) (m : Map Scanned) → was_failed (lookup kv m) ≡ true → Recorded kv m
was_failed-Recorded kv m h = elim (Option-cases (lookup kv m)) [
  | inl e ↦ absurd (ground (arith, rw e at h))
  | inr (sc, e) ↦ (sc, e)
]

update_stats-Recorded :
    (kv : ℕ) (sc : Scanned) (m : Map Scanned) → Recorded kv (update_stats kv (some sc) m)
unfolding update_stats
update_stats-Recorded kv sc m =
    elim (Bool-cases (is_pending sc.status && was_failed (lookup kv m))) [
      | inl kept ↦ rw kept (was_failed-Recorded kv m (ground arith))
      | inr set ↦ rw set (sc, lookup-insert_self kv sc m)
    ]

-- A mark keeps what is recorded.
update_stats-kept :
    (kv j : ℕ) (sc : Scanned) (m : Map Scanned)
    → Recorded j m
    → Recorded j (update_stats kv (some sc) m)
update_stats-kept kv j sc m r = elim (Bool-cases (kv == j)) [
  | inl same ↦
      let e : kv ≡ j = ground arith in
      subst (λ n. Recorded n (update_stats kv (some sc) m)) e (update_stats-Recorded kv sc m)
  | inr other ↦ (r.0, update_stats-other kv j (some sc) m (λ e. ground arith) ∙ r.1)
]

module _ (x : Externals) where
  module _ (now : ℕ) (mode : ScanMode) (s : StorageManager) where
    scan_kv-keeps :
        (kv j : ℕ) (commit : List ℕ) (stats m : Map Scanned)
        → scan_kv x now mode s kv commit stats ≡ ok m
        → Recorded j stats
        → Recorded j m
    unfolding scan_kv
    scan_kv-keeps kv j commit stats m h r = checked (check_kv x mode s kv commit) refl
      where
        checked : (c : Outcome (Unit {0})) → check_kv x mode s kv commit ≡ c → Recorded j m
        checked (ok u) e = subst (Recorded j) (ok-injective (rw (scan_kv, e) at h)) r
        checked (err f) e = elim (Bool-cases (is_commit_mismatch f)) [
          | inl mismatch ↦ subst (Recorded j) (ok-injective (rw (scan_kv, e, mismatch) at h)) (
              update_stats-kept kv j (record { status = pending; timestamp = now; error = none })
                stats r)
          | inr unreadable_kv ↦
              subst (Recorded j) (ok-injective (rw (scan_kv, e, unreadable_kv) at h)) (
                update_stats-kept kv j
                  (record { status = unreadable; timestamp = 0; error = some f }) stats r)
        ]
        checked panic e = absurd (ground (arith, rw (scan_kv, e) at h))

    scan_kv-Recorded :
        (kv : ℕ) (commit : List ℕ) (stats m : Map Scanned) (f : Error)
        → check_kv x mode s kv commit ≡ err f
        → scan_kv x now mode s kv commit stats ≡ ok m
        → Recorded kv m
    unfolding scan_kv
    scan_kv-Recorded kv commit stats m f e h = elim (Bool-cases (is_commit_mismatch f)) [
      | inl mismatch ↦ subst (Recorded kv) (ok-injective (rw (scan_kv, e, mismatch) at h)) (
          update_stats-Recorded kv (record { status = pending; timestamp = now; error = none })
            stats)
      | inr unreadable_kv ↦
          subst (Recorded kv) (ok-injective (rw (scan_kv, e, unreadable_kv) at h)) (
            update_stats-Recorded kv (record { status = unreadable; timestamp = 0; error = some f })
              stats)
    ]

    scan_kv-ne_err :
        (kv : ℕ) (commit : List ℕ) (stats : Map Scanned) (f : Error)
        → scan_kv x now mode s kv commit stats ≢ err f
    unfolding scan_kv
    scan_kv-ne_err kv commit stats f h = elim (Outcome-cases (check_kv x mode s kv commit)) [
      | is_ok u e ↦ absurd (ground (arith, rw (scan_kv, e) at h))
      | is_err g e ↦ absurd (ground (arith, rw (scan_kv, e) at h))
      | is_panic e ↦ absurd (ground (arith, rw (scan_kv, e) at h))
    ]

    scan_metas-kept :
        (done : ℕ → Bool) (i : ℕ) (kvs : List ℕ) (metas : List (List ℕ)) (j : ℕ)
        (stats : Map Scanned)
        → Recorded j stats
        → Recorded j (scan_metas x now mode s done i kvs metas stats).1
    unfolding scan_metas
    scan_metas-kept done i kvs [] j stats r = r
    scan_metas-kept done i [] (meta ∷ metas) j stats r = r
    scan_metas-kept done i (kv ∷ kvs) (meta ∷ metas) j stats r = elim (Bool-cases (done i)) [
      | inl stop ↦ rw (scan_metas, stop) r
      | inr go ↦ elim (Outcome-cases (scan_kv x now mode s kv (meta_commit meta) stats)) [
        | is_ok m e ↦
            rw (scan_metas, go, e)
              (scan_metas-kept done (i + 1) kvs metas j m
                (scan_kv-keeps kv j (meta_commit meta) stats m e r))
        | is_err f e ↦ rw (scan_metas, go, e) r
        | is_panic e ↦ rw (scan_metas, go, e) r
      ]
    ]

    -- The entry at position n behind position i.
    failing :
        (done : ℕ → Bool) (i : ℕ) (kvs : List ℕ) (metas : List (List ℕ)) (stats : Map Scanned)
        (n kv : ℕ) (meta : List ℕ) (f : Error)
        → (scan_metas x now mode s done i kvs metas stats).0 ≢ panic
        → ((k : ℕ) → i ≤ k → k ≤ i + n → done k ≡ false)
        → get_elem? kvs n ≡ some kv
        → get_elem? metas n ≡ some meta
        → check_kv x mode s kv (meta_commit meta) ≡ err f
        → Recorded kv (scan_metas x now mode s done i kvs metas stats).1
    unfolding scan_metas
    failing done i [] metas stats n kv meta f ends goes a b c = absurd (ground arith)
    failing done i (k ∷ kvs) [] stats n kv meta f ends goes a b c = absurd (ground arith)
    failing done i (k ∷ kvs) (t ∷ metas) stats zero kv meta f ends goes a b c =
        let go : done i ≡ false = goes i (omega arith) (omega arith) in
        let same : k ≡ kv = some-injective a in
        let same' : t ≡ meta = some-injective b in
        let c' : check_kv x mode s k (meta_commit t) ≡ err f =
          ap (λ n. check_kv x mode s n (meta_commit t)) same
          ∙ ap (λ c. check_kv x mode s kv (meta_commit c)) same'
          ∙ c in
        elim (Outcome-cases (scan_kv x now mode s k (meta_commit t) stats)) [
          | is_ok m e ↦
              rw (scan_metas, go, e)
                (subst (λ n. Recorded n (scan_metas x now mode s done (i + 1) kvs metas m).1) same
                  (scan_metas-kept done (i + 1) kvs metas k m
                    (scan_kv-Recorded k (meta_commit t) stats m f c' e)))
          | is_err g e ↦ absurd (scan_kv-ne_err k (meta_commit t) stats g e)
          | is_panic e ↦ absurd (ends (rw (scan_metas, go, e) refl))
        ]
    failing done i (k ∷ kvs) (t ∷ metas) stats (suc n) kv meta f ends goes a b c =
        let go : done i ≡ false = goes i (omega arith) (omega arith) in
        elim (Outcome-cases (scan_kv x now mode s k (meta_commit t) stats)) [
          | is_ok m e ↦
              rw (scan_metas, go, e)
                (failing done (i + 1) kvs metas m n kv meta f (λ p. ends (rw (scan_metas, go, e) p))
                  (λ p from to. goes p (omega arith) (omega arith)) a b c)
          | is_err g e ↦ absurd (scan_kv-ne_err k (meta_commit t) stats g e)
          | is_panic e ↦ absurd (ends (rw (scan_metas, go, e) refl))
        ]

    -- A batch keeps every entry recorded that was, however it ends. If it does not panic, it records
    -- every entry that fails its check against the contract and that comes before the first
    -- position at which the context is done.
    pub scan_metas-Recorded :
        (done : ℕ → Bool) (kvs : List ℕ) (metas : List (List ℕ)) (stats : Map Scanned)
        → ((j : ℕ)
            → Recorded j stats
            → Recorded j (scan_metas x now mode s done 0 kvs metas stats).1)
          × ((scan_metas x now mode s done 0 kvs metas stats).0 ≢ panic
              → (n kv : ℕ) (meta : List ℕ) (f : Error) → ((k : ℕ) → k ≤ n → done k ≡ false)
              → get_elem? kvs n ≡ some kv
              → get_elem? metas n ≡ some meta
              → check_kv x mode s kv (meta_commit meta) ≡ err f
              → Recorded kv (scan_metas x now mode s done 0 kvs metas stats).1)
    scan_metas-Recorded done kvs metas stats = (
      λ j r. scan_metas-kept done 0 kvs metas j stats r,
      λ ends n kv meta f goes.
          failing done 0 kvs metas stats n kv meta f ends (λ k from to. goes k (omega arith)),
    )
