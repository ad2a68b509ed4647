-- ===== src/Scanner/Settled.antt =====
-- ethstorage/scanner/worker.go, fixKv: an entry is settled, or is repaired again.
use es_node.Prelude.{
  ℕ, ◌≡◌, ◌≢◌, refl, subst, true, false, List, none, some, arith, Bool-cases, ◌⊎◌, inl, inr,
}
use es_node.Outcome.{Error, Outcome, ok, err, panic, ok-injective}
use es_node.Externals.{Externals}
use es_node.Manager.{Map, lookup}
use es_node.Manager.Maps.{lookup-insert_self}
use es_node.Storage.{StorageManager, L1Source}
use es_node.Storage.Commits.{try_write_with_meta_check}
use es_node.Sync.{elem}
use es_node.Scanner.Repair.{
  check_blob, unreadable, failed, Scanned, update_stats, to_fix, need_fix, is_pending,
  is_commit_mismatch, mark_failed, check_kv, fix_kv,
}
use es_node.Scanner.Stats.{Unique, lookup-remove_self, need_fix-elem, update_stats-other}

failed-to_fix :
    (now : ℕ) (f : Error)
    → to_fix now (record { status = failed; timestamp = 0; error = some f }) ≡ true
unfolding to_fix
failed-to_fix now f = refl

unreadable-to_fix :
    (now : ℕ) (f : Error)
    → to_fix now (record { status = unreadable; timestamp = 0; error = some f }) ≡ true
unfolding to_fix
unreadable-to_fix now f = refl

module _ (x : Externals) where
  module _ (l1 : L1Source) (fetch_blob : ℕ → List ℕ → Outcome (List ℕ)) (kv : ℕ) (commit : List ℕ)
      (s : StorageManager) (stats : Map Scanned) where
    abbrev written : Outcome (Unit {0})
    written = (try_write_with_meta_check x l1 fetch_blob kv commit s).0

    -- The others stay, and the entry is settled or will be repaired again.
    abbrev pub Settled : Map Scanned → Type 0
    Settled m =
        ((j : ℕ) → kv ≢ j → lookup j m ≡ lookup j stats)
        × (((lookup kv m ≡ none)
              × ((check_kv x check_blob s kv commit ≡ ok tt) ⊎ (written ≡ ok tt)))
            ⊎ ((now : ℕ) → elem kv (need_fix now m) ≡ true))

    marked-Settled :
        (sc : Scanned)
        → is_pending sc.status ≡ false
        → ((now : ℕ) → to_fix now sc ≡ true)
        → Settled (update_stats kv (some sc) stats)
    unfolding update_stats
    marked-Settled sc set wanted =
        let stored : lookup kv (update_stats kv (some sc) stats) ≡ some sc =
          rw (update_stats, set) (lookup-insert_self kv sc stats) in
        (
          λ j ne. update_stats-other kv j (some sc) stats ne,
          inr (λ now.
              need_fix-elem now kv sc (update_stats kv (some sc) stats) stored (wanted now)),
        )

    deleted-Settled :
        Unique stats
        → (check_kv x check_blob s kv commit ≡ ok tt) ⊎ (written ≡ ok tt)
        → Settled (update_stats kv none stats)
    unfolding update_stats
    deleted-Settled u done =
        (λ j ne. update_stats-other kv j none stats ne, inl (lookup-remove_self kv stats u, done))

    after_write-Settled :
        (r : Outcome (Unit {0})) (m : Map Scanned)
        → Unique stats
        → written ≡ r
        → (elim r [
          | ok _ ↦ ok (update_stats kv none stats)
          | err f ↦ ok (update_stats kv (mark_failed f) stats)
          | panic ↦ panic
        ])
          ≡ ok m
        → Settled m
    after_write-Settled (ok v) m u e h = subst Settled (ok-injective h) (deleted-Settled u (inr e))
    after_write-Settled (err f) m u e h =
        subst Settled (ok-injective h) (marked-Settled _ refl (λ now. failed-to_fix now f))
    after_write-Settled panic m u e h = absurd (ground arith)

    -- If no entry is recorded twice and fixKv does not panic, the other entries stay as they were,
    -- and either the entry is not recorded any more and its blob could be read with the commit of
    -- the contract or was written, or it is among the entries to repair at any later time.
    pub fix_kv-Settled :
        (m : Map Scanned)
        → Unique stats
        → (fix_kv x l1 fetch_blob kv commit s stats).0 ≡ ok m
        → Settled m
    unfolding fix_kv
    fix_kv-Settled m u h = checked (check_kv x check_blob s kv commit) refl
      where
        checked : (c : Outcome (Unit {0})) → check_kv x check_blob s kv commit ≡ c → Settled m
        checked (ok v) e =
            subst Settled (ok-injective (rw (fix_kv, e) at h)) (deleted-Settled u (inl e))
        checked (err f) e = elim (Bool-cases (is_commit_mismatch f)) [
          | inl mismatch ↦ after_write-Settled written m u refl (rw (fix_kv, e, mismatch) at h)
          | inr unreadable_kv ↦
              subst Settled (ok-injective (rw (fix_kv, e, unreadable_kv) at h))
                (marked-Settled _ refl (λ now. unreadable-to_fix now f))
        ]
        checked panic e = absurd (ground (arith, rw (fix_kv, e) at h))
