-- ===== src/Sync/Answers.antt =====
-- What the answers of peers leave of a task (ethstorage/p2p/protocol/syncclient.go, OnBlobsByRange
-- and OnBlobsByList).
use native.Mathlib.Decide.{dec_lt}
use es_node.Prelude.{
  ℕ, ◌+◌, ◌-◌, ◌≤◌, ◌<◌, ◌≡◌, refl, sym, ap, subst, ◌∙◌, true, List, ◌∷◌, ◌++◌, some, ◌==◌, arith,
  Bool-cases, ◌⊎◌, inl, inr, length, ◌+64◌, ◌-64◌, u64_fits, sub64_fits,
}
use es_node.Outcome.{ok}
use es_node.Sync.{
  SubTask, Task, elem, heal_insert, heal_remove, sort, last_of, missing_from, nth_sub, set_sub,
  advanced, settle_range, settle_list,
}
use es_node.Sync.Heal.{
  elem-append_left, elem-append_right, has_key-refresh_kept, has_key-refresh_new,
  has_key-heal_remove, missing_from-last, Ascending, elem-sort, Distinct, sort-Ascending,
  elem-last_of,
}
use es_node.Sync.Coverage.{Handled, IsSub, Inv, AllSubs-kept, AllSubs-set, AllSubs-nth, InSome-set}

-- The answer to a range request: the indices that were inserted lie in what was asked for.
module _ (c : List ℕ) (t : Task) (k : ℕ) (st : SubTask) (inserted : List ℕ) (x : ℕ) (xs : List ℕ)
    (at : nth_sub k t.sub_tasks ≡ some st) (distinct : Distinct inserted)
    (asked : (j : ℕ) → elem j inserted ≡ true → (st.next ≤ j) × (j < st.last))
    (sorted : sort inserted ≡ x ∷ xs) where
  upto_inside : (st.next ≤ last_of x xs) × (last_of x xs < st.last)
  upto_inside = asked (last_of x xs) (
      sym (elem-sort (last_of x xs) inserted) ∙ ap (elem (last_of x xs)) sorted ∙ elem-last_of x xs)

  ascending : Ascending st.next (x ∷ xs)
  ascending =
      subst (Ascending st.next) sorted
        (sort-Ascending st.next inserted distinct (λ j e. (asked j e).0))

  next_fits : IsSub c t.heal_task st → last_of x xs +64 1 ≡ last_of x xs + 1
  next_fits s = u64_fits (last_of x xs + 1) (omega (arith, upto_inside, s.small))

  IsSub-advanced :
      (ms : List ℕ)
      → ((j : ℕ) → st.next ≤ j → j ≤ last_of x xs → (elem j (x ∷ xs) ≡ true) ⊎ (elem j ms ≡ true))
      → IsSub c t.heal_task st
      → IsSub (inserted ++ c) (heal_insert ms t.heal_task) (advanced st (last_of x xs))
  IsSub-advanced ms found s = record {
    handled = λ j a b. handled j a (subst (λ n. j < n) (next_fits s) b);
    finished = finished;
    ordered = omega (arith, next_fits s, upto_inside, s.ordered);
    small = s.small;
  }
    where
      finished : (advanced st (last_of x xs)).done ≡ true → st.last ≤ last_of x xs +64 1
      finished d = elim (Bool-cases (last_of x xs == st.last -64 1)) [
        | inl ended ↦
            let e : last_of x xs ≡ st.last -64 1 = ground arith in
            let e' : st.last -64 1 ≡ st.last - 1 =
              sub64_fits st.last 1 (omega (arith, upto_inside)) s.small in
            omega (arith, next_fits s)
        | inr more ↦ omega (arith, s.finished (rw more at d), upto_inside, next_fits s)
      ]

      kept :
          (i : ℕ) → Handled c t.heal_task i → Handled (inserted ++ c) (heal_insert ms t.heal_task) i
      kept i (inl h) = inl (elem-append_right i inserted c h)
      kept i (inr h) = inr (has_key-refresh_kept 0 ms t.heal_task i h)

      handled :
          (j : ℕ)
          → st.first ≤ j
          → j < last_of x xs + 1
          → Handled (inserted ++ c) (heal_insert ms t.heal_task) j
      handled j a b = elim (dec_lt j st.next) [
        | yes before ↦ kept j (s.handled j a before)
        | no after ↦ elim (found j (omega arith) (omega arith)) [
          | inl h ↦
              inl (
                elem-append_left j inserted c (sym (elem-sort j inserted) ∙ ap (elem j) sorted ∙ h))
          | inr h ↦ inr (has_key-refresh_new 0 ms t.heal_task j h)
        ]
      ]

  settled : List ℕ → Task
  settled ms = record t {
    state = record (t.state) { blobs_synced = t.state.blobs_synced +64 length (x ∷ xs) };
    heal_task = heal_insert ms t.heal_task;
    sub_tasks = set_sub k (advanced st (last_of x xs)) t.sub_tasks;
  }

  settle_range-ok :
      (ms : List ℕ)
      → missing_from (last_of x xs + 1 - st.next) st.next (x ∷ xs) ≡ ok ms
      → settle_range k st x xs t ≡ ok (settled ms)
  unfolding settle_range settled
  settle_range-ok ms e = rw e

  Inv-settled :
      (lo hi : ℕ) (ms : List ℕ)
      → ((j : ℕ) → st.next ≤ j → j ≤ last_of x xs → (elem j (x ∷ xs) ≡ true) ⊎ (elem j ms ≡ true))
      → Inv lo hi c t
      → Inv lo hi (inserted ++ c) (settled ms)
  unfolding settled
  Inv-settled lo hi ms found inv = record {
    subs =
        AllSubs-set c (inserted ++ c) t.heal_task (heal_insert ms t.heal_task)
          (λ i h. elim h [
            | inl h ↦ inl (elem-append_right i inserted c h)
            | inr h ↦ inr (has_key-refresh_kept 0 ms t.heal_task i h)
          ])
          k (advanced st (last_of x xs)) t.sub_tasks inv.subs
          (IsSub-advanced ms found (AllSubs-nth c t.heal_task k t.sub_tasks at inv.subs));
    wanted = λ i a b. elim (inv.wanted i a b) [
      | inl h ↦ inl (elem-append_right i inserted c h)
      | inr h ↦ inr (InSome-set k t.sub_tasks st (advanced st (last_of x xs)) i at refl refl h)
    ];
  }

  -- An answer whose indices are distinct and were asked for is settled, and the task that it
  -- leaves has lost no index.
  pub settle_range-Inv :
      (lo hi : ℕ)
      → Inv lo hi c t
      → (t' : Task) × (settle_range k st x xs t ≡ ok t') × Inv lo hi (inserted ++ c) t'
  settle_range-Inv lo hi inv =
      let (ms, returned, found) = missing_from-last st.next x xs ascending in
      (settled ms, settle_range-ok ms returned, Inv-settled lo hi ms found inv)

pub settle_list-Inv :
    (lo hi : ℕ) (c inserted : List ℕ) (t : Task)
    → Inv lo hi c t
    → Inv lo hi (inserted ++ c) (settle_list inserted t)
unfolding settle_list
settle_list-Inv lo hi c inserted t inv = record {
  subs =
      AllSubs-kept c (inserted ++ c) t.heal_task (heal_remove inserted t.heal_task) kept t.sub_tasks
        inv.subs;
  wanted = λ i a b. elim (inv.wanted i a b) [
    | inl h ↦ inl (elem-append_right i inserted c h)
    | inr h ↦ inr h
  ];
}
  where
    kept :
        (i : ℕ)
        → Handled c t.heal_task i
        → Handled (inserted ++ c) (heal_remove inserted t.heal_task) i
    kept i (inl h) = inl (elem-append_right i inserted c h)
    kept i (inr h) = elim (Bool-cases (elem i inserted)) [
      | inl done ↦ inl (elem-append_left i inserted c done)
      | inr left ↦ inr (has_key-heal_remove inserted t.heal_task i h left)
    ]
