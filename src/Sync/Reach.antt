-- ===== src/Sync/Reach.antt =====
-- The sync of a shard as a transition system: what the main loop and the goroutines of
-- ethstorage/p2p/protocol/syncclient.go do to a task, in any order. Beside the task stand the
-- indices whose blobs were committed.
use native.Mathlib.Decide.{dec_lt}
use es_node.Prelude.{
  ℕ, ◌+◌, ◌*◌, ◌^◌, ◌≤◌, ◌<◌, ◌≡◌, refl, sym, subst, ◌∙◌, Bool, true, List, [], ◌∷◌, ◌++◌, some,
  arith, ◌⊎◌, inl, inr,
}
use es_node.Outcome.{ok, ok-injective}
use es_node.Sync.{
  SubTask, Task, elem, heal_refresh, sort, nth_sub, set_sub, clean_task, reload_task, settle_range,
  settle_list, settle_empty,
}
use es_node.Sync.Creation.{create_task, sub_tasks_of}
use es_node.Sync.Tiles.{Tiles, Splits, create_task-Splits}
use es_node.Sync.Heal.{Distinct, has_key-refresh_kept, elem-append_right}
use es_node.Sync.Coverage.{
  AllSubs, InSome, Inv, AllSubs-kept, AllSubs-set, AllSubs-nth, InSome-set, AllSubs-clean,
  InSome-clean, AllSubs-reload, InSome-reload,
}
use es_node.Sync.Answers.{settle_range-Inv, settle_list-Inv}

-- A sub task starts or ends its request.
abbrev running : Bool → SubTask → SubTask
running b st = record st { is_running = b }

-- One step of the main loop or of a goroutine. The answer to a range may commit an index more than
-- once: nothing in the client keeps a peer from repeating a blob.
pub data Step (t : Task) (c : List ℕ) (t' : Task) (c' : List ℕ) : Type 0 where
  request :
      (k : ℕ) (st : SubTask) (b : Bool) (next_idx : ℕ)
      → nth_sub k t.sub_tasks ≡ some st
      → t' ≡ record t { sub_tasks = set_sub k (running b st) t.sub_tasks; next_idx = next_idx }
      → c' ≡ c
      → Step t c t' c'
  retry :
      (now : ℕ) (indexes : List ℕ)
      → t' ≡ record t { heal_task = heal_refresh now indexes t.heal_task }
      → c' ≡ c
      → Step t c t' c'
  stateless : (peers : List ℕ) → t' ≡ record t { stateless_peers = peers } → c' ≡ c → Step t c t' c'
  range_answer :
      (k : ℕ) (st : SubTask) (inserted : List ℕ) (x : ℕ) (xs : List ℕ)
      → nth_sub k t.sub_tasks ≡ some st
      → ((j : ℕ) → elem j inserted ≡ true → (st.next ≤ j) × (j < st.last))
      → sort inserted ≡ x ∷ xs
      → settle_range k st x xs t ≡ ok t'
      → c' ≡ inserted ++ c
      → Step t c t' c'
  list_answer :
      (inserted : List ℕ) → t' ≡ settle_list inserted t → c' ≡ inserted ++ c → Step t c t' c'
  fill : (k filled next : ℕ) → t' ≡ settle_empty k filled next t → c' ≡ c → Step t c t' c'
  clean : t' ≡ clean_task t → c' ≡ c → Step t c t' c'

-- A run: the task that was saved last, the task of the client, and the committed indices. The client
-- saves its tasks from time to time and when it closes; a restart, also after a crash, loads what
-- was saved last, or before the first save the task as it was made, while what was committed stays.
pub data Reach (t0 : Task) (c0 : List ℕ) : Task → Task → List ℕ → Type 0 where
  start : Reach t0 c0 t0 t0 c0
  then_step :
      {saved u t : Task} {d c : List ℕ}
      → Reach t0 c0 saved u d
      → Step u d t c
      → Reach t0 c0 saved t c
  save : {saved t : Task} {c : List ℕ} → Reach t0 c0 saved t c → Reach t0 c0 t t c
  restart :
      {saved t : Task} {c : List ℕ}
      → Reach t0 c0 saved t c
      → Reach t0 c0 saved (reload_task saved) c

-- The step is no answer to a range that commits an index twice.
abbrev pub Fresh : {t t' : Task} {c c' : List ℕ} → Step t c t' c' → Type 0
Fresh (request k st b next_idx at e e') = Unit
Fresh (retry now indexes e e') = Unit
Fresh (stateless peers e e') = Unit
Fresh (range_answer k st inserted x xs at asked sorted settled e') = Distinct inserted
Fresh (list_answer inserted e e') = Unit
Fresh (fill k filled next e e') = Unit
Fresh (clean e e') = Unit

abbrev pub AllFresh :
    {t0 : Task} {c0 : List ℕ} {saved t : Task} {c : List ℕ} → Reach t0 c0 saved t c → Type 0
AllFresh start = Unit
AllFresh (then_step run step) = AllFresh run × Fresh step
AllFresh (save run) = AllFresh run
AllFresh (restart run) = AllFresh run

module _ (lo hi : ℕ) {t : Task} {c : List ℕ} (inv : Inv lo hi c t) where
  Inv-request :
      (k : ℕ) (st : SubTask) (b : Bool) (next_idx : ℕ)
      → nth_sub k t.sub_tasks ≡ some st
      → Inv lo hi c
          (record t { sub_tasks = set_sub k (running b st) t.sub_tasks; next_idx = next_idx })
  Inv-request k st b next_idx at =
      let s = AllSubs-nth c t.heal_task k t.sub_tasks at inv.subs in
      record {
        subs =
            AllSubs-set c c t.heal_task t.heal_task (λ i h. h) k (running b st) t.sub_tasks inv.subs
              (record {
                handled = s.handled;
                finished = s.finished;
                ordered = s.ordered;
                small = s.small;
              });
        wanted = λ i a d. elim (inv.wanted i a d) [
          | inl h ↦ inl h
          | inr h ↦ inr (InSome-set k t.sub_tasks st (running b st) i at refl refl h)
        ];
      }

  Inv-retry :
      (now : ℕ) (indexes : List ℕ)
      → Inv lo hi c (record t { heal_task = heal_refresh now indexes t.heal_task })
  Inv-retry now indexes = record {
    subs =
        AllSubs-kept c c t.heal_task (heal_refresh now indexes t.heal_task)
          (λ i h. elim h [
            | inl d ↦ inl d
            | inr q ↦ inr (has_key-refresh_kept now indexes t.heal_task i q)
          ])
          t.sub_tasks inv.subs;
    wanted = inv.wanted;
  }

  clean_task-Inv : Inv lo hi c (clean_task t)
  unfolding clean_task
  clean_task-Inv = record {
    subs = AllSubs-clean c t.heal_task 0 t.sub_tasks t.next_idx inv.subs;
    wanted = λ i a b. elim (inv.wanted i a b) [
      | inl h ↦ inl h
      | inr h ↦ InSome-clean c t.heal_task 0 t.sub_tasks t.next_idx i inv.subs h
    ];
  }

  reload_task-Inv : Inv lo hi c (reload_task t)
  unfolding reload_task
  reload_task-Inv = record {
    subs = AllSubs-reload c t.heal_task t.sub_tasks inv.subs;
    wanted = λ i a b. elim (inv.wanted i a b) [
      | inl h ↦ inl h
      | inr h ↦ inr (InSome-reload t.sub_tasks i h)
    ];
  }

  settle_empty-Inv : (k filled next : ℕ) → Inv lo hi c (settle_empty k filled next t)
  unfolding settle_empty
  settle_empty-Inv k filled next = record { subs = inv.subs; wanted = inv.wanted }

  stateless-Inv : (peers : List ℕ) → Inv lo hi c (record t { stateless_peers = peers })
  stateless-Inv peers = record { subs = inv.subs; wanted = inv.wanted }

-- Two equations carry the invariant over.
moved : (lo hi : ℕ) {t u : Task} {c d : List ℕ} → u ≡ t → d ≡ c → Inv lo hi c t → Inv lo hi d u
moved lo hi e e' inv = rw (e, e') inv

Step-Inv :
    (lo hi : ℕ) {t t' : Task} {c c' : List ℕ} (step : Step t c t' c')
    → Fresh step
    → Inv lo hi c t
    → Inv lo hi c' t'
Step-Inv lo hi (request k st b n at e e') f inv =
    moved lo hi e e' (Inv-request lo hi inv k st b n at)
Step-Inv lo hi (retry now is e e') f inv = moved lo hi e e' (Inv-retry lo hi inv now is)
Step-Inv lo hi (stateless ps e e') f inv = moved lo hi e e' (stateless-Inv lo hi inv ps)
Step-Inv lo hi {t} {t'} {c} {c'} (range_answer k st inserted x xs at asked sorted settled e')
      distinct inv =
    let (u, e, inv') = settle_range-Inv c t k st inserted x xs at distinct asked sorted lo hi inv in
    moved lo hi (ok-injective (sym settled ∙ e)) e' inv'
Step-Inv lo hi {t} {t'} {c} {c'} (list_answer inserted e e') f inv =
    moved lo hi e e' (settle_list-Inv lo hi c inserted t inv)
Step-Inv lo hi (fill k n next e e') f inv = moved lo hi e e' (settle_empty-Inv lo hi inv k n next)
Step-Inv lo hi (clean e e') f inv = moved lo hi e e' (clean_task-Inv lo hi inv)

Step-kept :
    {t t' : Task} {c c' : List ℕ} → Step t c t' c' → (j : ℕ) → elem j c ≡ true → elem j c' ≡ true
Step-kept (request k st b n at e e') j h = rw e' h
Step-kept (retry now is e e') j h = rw e' h
Step-kept (stateless ps e e') j h = rw e' h
Step-kept {c = c} (range_answer k st inserted x xs at asked sorted settled e') j h =
    rw e' (elem-append_right j inserted c h)
Step-kept {c = c} (list_answer inserted e e') j h = rw e' (elem-append_right j inserted c h)
Step-kept (fill k n next e e') j h = rw e' h
Step-kept (clean e e') j h = rw e' h

-- A task stays well-formed when more is committed.
Inv-more :
    (lo hi : ℕ) {t : Task} {c c' : List ℕ}
    → ((j : ℕ) → elem j c ≡ true → elem j c' ≡ true)
    → Inv lo hi c t
    → Inv lo hi c' t
Inv-more lo hi {t} {c} {c'} more inv = record {
  subs =
      AllSubs-kept c c' t.heal_task t.heal_task
        (λ i h. elim h [ inl d ↦ inl (more i d) | inr q ↦ inr q ]) t.sub_tasks inv.subs;
  wanted = λ i a b. elim (inv.wanted i a b) [ inl d ↦ inl (more i d) | inr s ↦ inr s ];
}

Reach-Inv :
    (lo hi : ℕ) {t0 : Task} {c0 : List ℕ} {saved t : Task} {c : List ℕ}
    (run : Reach t0 c0 saved t c)
    → AllFresh run
    → Inv lo hi c0 t0
    → Inv lo hi c saved × Inv lo hi c t
Reach-Inv lo hi start f inv = (inv, inv)
Reach-Inv lo hi (then_step r s) f inv =
    let before = Reach-Inv lo hi r f.0 inv in
    (Inv-more lo hi (Step-kept s) before.0, Step-Inv lo hi s f.1 before.1)
Reach-Inv lo hi (save r) f inv = let before = Reach-Inv lo hi r f inv in (before.1, before.1)
Reach-Inv lo hi (restart r) f inv =
    let before = Reach-Inv lo hi r f inv in (before.0, reload_task-Inv lo hi before.0)

pub Tiles-le : (a b : ℕ) (rs : List (ℕ × ℕ)) → Tiles a b rs → a ≤ b
Tiles-le a b [] e = omega arith
Tiles-le a b (r ∷ rs) (e, lt, rest) = omega (arith, Tiles-le r.1 b rs rest)

sub_tasks_of-AllSubs :
    (a b : ℕ) (rs : List (ℕ × ℕ)) → Tiles a b rs → b < 2 ^ 64 → AllSubs [] [] (sub_tasks_of rs)
sub_tasks_of-AllSubs a b [] tiles fits = tt
sub_tasks_of-AllSubs a b (r ∷ rs) (e, lt, rest) fits = (
  record {
    handled = λ i p q. absurd (omega arith);
    finished = λ d. absurd (ground arith);
    ordered = omega arith;
    small = omega (arith, Tiles-le r.1 b rs rest);
  },
  sub_tasks_of-AllSubs r.1 b rs rest fits,
)

sub_tasks_of-InSome :
    (a b i : ℕ) (rs : List (ℕ × ℕ)) → Tiles a b rs → a ≤ i → i < b → InSome i (sub_tasks_of rs)
sub_tasks_of-InSome a b i [] e p q = absurd (omega arith)
sub_tasks_of-InSome a b i (r ∷ rs) (e, lt, rest) p q = elim (dec_lt i r.1) [
  | yes here ↦ inl (omega arith, here)
  | no there ↦ inr (sub_tasks_of-InSome r.1 b i rs rest (omega arith) q)
]

Splits-Inv :
    (first limit last_kv : ℕ) (t : Task) (s : Splits first limit last_kv t)
    → limit < 2 ^ 64
    → Inv first s.middle [] t
Splits-Inv first limit last_kv t s fits = record {
  subs =
      rw (s.sub_tasks, s.no_heal)
        (sub_tasks_of-AllSubs first s.middle s.fetched s.fetched_all
          (omega (arith, Tiles-le s.middle limit s.filled s.filled_all)));
  wanted = λ i a b.
      inr (rw s.sub_tasks (sub_tasks_of-InSome first s.middle i s.fetched s.fetched_all a b));
}

module _ (contract : List ℕ) (kv_entries concurrency threads sid last_kv : ℕ) (pc : 0 < concurrency)
    (pt : 0 < threads) (small : sid + 1 < 2 ^ 64)
    (fits : 2 * (kv_entries * (sid + 1)) + concurrency + threads + 16 < 2 ^ 64) (t0 : Task)
    (created : create_task contract kv_entries concurrency threads sid last_kv ≡ ok t0)
    {saved t : Task} {c : List ℕ} (run : Reach t0 [] saved t c) (fresh : AllFresh run) (i : ℕ)
    (from : kv_entries * sid ≤ i) (to : i < kv_entries * (sid + 1)) (known : i < last_kv) where
  created-Splits : Splits (kv_entries * sid) (kv_entries * (sid + 1)) last_kv t0
  created-Splits =
      let (u, e, s) =
        create_task-Splits contract kv_entries concurrency threads sid last_kv pc pt small fits in
      subst (Splits (kv_entries * sid) (kv_entries * (sid + 1)) last_kv)
        (ok-injective (sym e ∙ created)) s

  reached : (elem i c ≡ true) ⊎ InSome i t.sub_tasks
  reached =
      let s = created-Splits in
      let inv = Splits-Inv (kv_entries * sid) (kv_entries * (sid + 1)) last_kv t0 s (omega arith) in
      (Reach-Inv (kv_entries * sid) s.middle run fresh inv).1.wanted i from
        ((s.in_contract i from to).1 known)

  -- With a positive concurrency and number of threads and sizes that fit a `uint64`: in every run
  -- from a task that createTask made, in any order of requests, answers, cleaning, saving and
  -- restarts from what was saved last, in which no answer to a range commits an index twice, once
  -- no sub task is left, the blob of each entry of the shard that the contract had when the
  -- task was made has been committed.
  pub Reach-elem : t.sub_tasks ≡ [] → elem i c ≡ true
  Reach-elem empty = elim reached [ inl h ↦ h | inr h ↦ absurd (subst (InSome i) empty h) ]
