-- ===== src/Sync/Coverage.antt =====
-- No index that a shard needs is lost between its sub tasks, the heal task and the commits
-- (ethstorage/p2p/protocol/syncclient.go).
use native.Mathlib.Decide.{dec_lt}
use es_node.Prelude.{
  ℕ, zero, suc, ◌+◌, ◌-◌, ◌^◌, ◌≤◌, ◌<◌, ◌≡◌, ap, subst, Bool, true, false, not, ◌&&◌, List, [],
  ◌∷◌, some, ltb, if◌then◌else◌, arith, Bool-cases, some-injective, ◌⊎◌, inl, inr,
}
use es_node.Manager.{Map}
use es_node.Sync.{
  SubTask, Task, has_key, elem, has_index_in_range, clean_sub_tasks, reload_sub_tasks, nth_sub,
  set_sub,
}
use es_node.Sync.Heal.{has_index_in_range-Least}

-- An index is committed or waits in the heal task.
abbrev pub Handled : List ℕ → Map ℕ → ℕ → Type 0
Handled c heal i = (elem i c ≡ true) ⊎ (has_key i heal ≡ true)

-- A sub task has handled what lies before its next index, all of it if it is done.
pub record IsSub (c : List ℕ) (heal : Map ℕ) (st : SubTask) : Type 0 where
  pub handled : (i : ℕ) → st.first ≤ i → i < st.next → Handled c heal i
  pub finished : st.done ≡ true → st.last ≤ st.next
  pub ordered : st.first ≤ st.next
  pub small : st.last < 2 ^ 64

abbrev pub AllSubs : List ℕ → Map ℕ → List SubTask → Type 0
AllSubs c heal [] = Unit
AllSubs c heal (st ∷ sts) = IsSub c heal st × AllSubs c heal sts

abbrev pub InSome : ℕ → List SubTask → Type 0
InSome i [] = ⊥
InSome i (st ∷ sts) = ((st.first ≤ i) × (i < st.last)) ⊎ InSome i sts

-- Every index from lo to hi is committed or lies in the range of a sub task.
pub record Inv (lo hi : ℕ) (c : List ℕ) (t : Task) : Type 0 where
  pub subs : AllSubs c t.heal_task t.sub_tasks
  pub wanted : (i : ℕ) → lo ≤ i → i < hi → (elem i c ≡ true) ⊎ InSome i t.sub_tasks

module _ (c c' : List ℕ) (heal heal' : Map ℕ)
    (kept : (i : ℕ) → Handled c heal i → Handled c' heal' i) where
  IsSub-kept : {st : SubTask} → IsSub c heal st → IsSub c' heal' st
  IsSub-kept s = record {
    handled = λ i a b. kept i (s.handled i a b);
    finished = s.finished;
    ordered = s.ordered;
    small = s.small;
  }

  pub AllSubs-kept : (sts : List SubTask) → AllSubs c heal sts → AllSubs c' heal' sts
  AllSubs-kept [] s = tt
  AllSubs-kept (st ∷ sts) s = (IsSub-kept s.0, AllSubs-kept sts s.1)

  pub AllSubs-set :
      (k : ℕ) (st' : SubTask) (sts : List SubTask)
      → AllSubs c heal sts
      → IsSub c' heal' st'
      → AllSubs c' heal' (set_sub k st' sts)
  AllSubs-set k st' [] s h = tt
  AllSubs-set zero st' (st ∷ sts) s h = (h, AllSubs-kept sts s.1)
  AllSubs-set (suc k) st' (st ∷ sts) s h = (IsSub-kept s.0, AllSubs-set k st' sts s.1 h)

pub AllSubs-nth :
    (c : List ℕ) (heal : Map ℕ) (k : ℕ) (sts : List SubTask) {st : SubTask}
    → nth_sub k sts ≡ some st
    → AllSubs c heal sts
    → IsSub c heal st
AllSubs-nth c heal k [] e s = absurd (ground arith)
AllSubs-nth c heal zero (st ∷ sts) e s = subst (IsSub c heal) (some-injective e) s.0
AllSubs-nth c heal (suc k) (st ∷ sts) e s = AllSubs-nth c heal k sts e s.1

-- A sub task whose range stays the same may be replaced.
pub InSome-set :
    (k : ℕ) (sts : List SubTask) (st st' : SubTask) (i : ℕ)
    → nth_sub k sts ≡ some st
    → st'.first ≡ st.first
    → st'.last ≡ st.last
    → InSome i sts
    → InSome i (set_sub k st' sts)
InSome-set k [] st st' i e f l h = h
InSome-set zero (s ∷ sts) st st' i e f l (inl h) =
    let same : s ≡ st = some-injective e in
    let first : s.first ≡ st.first = ap (λ (t : SubTask). t.first) same in
    let last : s.last ≡ st.last = ap (λ (t : SubTask). t.last) same in
    inl (omega (arith, h), omega (arith, h))
InSome-set zero (s ∷ sts) st st' i e f l (inr h) = inr h
InSome-set (suc k) (s ∷ sts) st st' i e f l (inl h) = inl h
InSome-set (suc k) (s ∷ sts) st st' i e f l (inr h) = inr (InSome-set k sts st st' i e f l h)

module _ (c : List ℕ) (heal : Map ℕ) (st : SubTask) (s : IsSub c heal st) where
  abbrev least : Bool × ℕ
  least = has_index_in_range st.first st.next heal

  IsSub-clean : IsSub c heal (record st { first = least.1 })
  IsSub-clean =
      let r = has_index_in_range-Least st.first st.next heal in
      record {
        handled = λ j a b. s.handled j (omega (arith, r.from_first s.ordered)) b;
        finished = s.finished;
        ordered = r.to_next;
        small = s.small;
      }

  -- A done sub task with no index to heal has committed its range.
  clean-gone :
      (j : ℕ) → st.done ≡ true → least.0 ≡ false → st.first ≤ j → j < st.last → elem j c ≡ true
  clean-gone j d e a b =
      let r = has_index_in_range-Least st.first st.next heal in
      let before : j < st.next = omega (arith, s.finished d) in
      elim (s.handled j a before) [
        | inl h ↦ h
        | inr q ↦ absurd (ground (arith, (r.below j q a before).0))
      ]

  -- What lies before the new first index has been committed.
  clean-stays :
      (j : ℕ) → st.first ≤ j → j < st.last → (elem j c ≡ true) ⊎ ((least.1 ≤ j) × (j < st.last))
  clean-stays j a b =
      let r = has_index_in_range-Least st.first st.next heal in
      elim (dec_lt j least.1) [
        | no behind ↦ inr (omega arith, b)
        | yes passed ↦
            let before : j < st.next = omega (arith, r.to_next) in
            elim (s.handled j a before) [
              | inl h ↦ inl h
              | inr q ↦ absurd (omega (arith, (r.below j q a before).1))
            ]
      ]

-- Cleaning: a sub task keeps its obligations, and one that is removed had committed everything.
pub AllSubs-clean :
    (c : List ℕ) (heal : Map ℕ) (i : ℕ) (sts : List SubTask) (n : ℕ)
    → AllSubs c heal sts
    → AllSubs c heal (clean_sub_tasks heal i sts n).0
unfolding clean_sub_tasks
AllSubs-clean c heal i [] n s = tt
AllSubs-clean c heal i (st ∷ sts) n s =
    elim (Bool-cases (st.done && not (has_index_in_range st.first st.next heal).0)) [
      | inl gone ↦ rw gone (AllSubs-clean c heal i sts (if ltb i n then n - 1 else n) s.1)
      | inr stays ↦ rw stays (IsSub-clean c heal st s.0, AllSubs-clean c heal (i + 1) sts n s.1)
    ]

pub InSome-clean :
    (c : List ℕ) (heal : Map ℕ) (i : ℕ) (sts : List SubTask) (n j : ℕ)
    → AllSubs c heal sts
    → InSome j sts
    → (elem j c ≡ true) ⊎ InSome j (clean_sub_tasks heal i sts n).0
unfolding clean_sub_tasks
InSome-clean c heal i [] n j s h = elim h [ ]
InSome-clean c heal i (st ∷ sts) n j s h =
    elim (Bool-cases (st.done && not (has_index_in_range st.first st.next heal).0)) [
      | inl gone ↦ rw gone (elim h [
        | inl here ↦ inl (clean-gone c heal st s.0 j (ground arith) (ground arith) here.0 here.1)
        | inr there ↦ InSome-clean c heal i sts (if ltb i n then n - 1 else n) j s.1 there
      ])
      | inr stays ↦ rw stays (elim h [
        | inl here ↦ elim (clean-stays c heal st s.0 j here.0 here.1) [
          | inl done ↦ inl done
          | inr left ↦ inr (inl left)
        ]
        | inr there ↦ elim (InSome-clean c heal (i + 1) sts n j s.1 there) [
          | inl done ↦ inl done
          | inr left ↦ inr (inr left)
        ]
      ])
    ]

pub AllSubs-reload :
    (c : List ℕ) (heal : Map ℕ) (sts : List SubTask)
    → AllSubs c heal sts
    → AllSubs c [] (reload_sub_tasks sts)
unfolding reload_sub_tasks
AllSubs-reload c heal [] s = tt
AllSubs-reload c heal (st ∷ sts) s = (
  record {
    handled = λ j a b. absurd (omega arith);
    finished = λ d. absurd (ground arith);
    ordered = omega arith;
    small = s.0.small;
  },
  AllSubs-reload c heal sts s.1,
)

pub InSome-reload : (sts : List SubTask) (j : ℕ) → InSome j sts → InSome j (reload_sub_tasks sts)
unfolding reload_sub_tasks
InSome-reload [] j h = h
InSome-reload (st ∷ sts) j (inl h) = inl h
InSome-reload (st ∷ sts) j (inr h) = inr (InSome-reload sts j h)
