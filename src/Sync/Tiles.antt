-- ===== src/Sync/Tiles.antt =====
-- ethstorage/p2p/protocol/syncclient.go, createTask: how the sub tasks cover a shard.
use native.Mathlib.Nat.{div-le_self, mul-le-mul_left}
use es_node.Prelude.{
  ℕ, zero, suc, ◌+◌, ◌-◌, ◌*◌, ◌/◌, ◌^◌, ◌≤◌, ◌<◌, ◌≡◌, ◌↔◌, refl, ap, ◌∙◌, min, true, false, List,
  [], ◌∷◌, ltb, leb, ◌==◌, ◌+64◌, ◌-64◌, ◌*64◌, u64_fits, sub64_fits, arith, Bool-cases, ◌⊎◌, inl,
  inr,
}
use es_node.Outcome.{ok}
use es_node.Sync.{Task}
use es_node.Sync.Creation.{
  part_size, split_range, sub_tasks_of, sub_empty_tasks_of, divide_shard, empty_ranges, create_task,
  no_progress,
}

-- The ranges follow each other from a to b, and none is empty.
abbrev pub Tiles : ℕ → ℕ → List (ℕ × ℕ) → Type 0
Tiles a b [] = a ≡ b
Tiles a b (r ∷ rs) = (r.0 ≡ a) × (a < r.1) × Tiles r.1 b rs

split_range-Tiles :
    (fuel size first limit : ℕ)
    → 0 < size
    → first ≤ limit
    → limit + size < 2 ^ 64
    → limit - first ≤ fuel
    → Tiles first limit (split_range fuel size first limit)
unfolding split_range
split_range-Tiles zero size first limit p le fits enough = omega arith
split_range-Tiles (suc fuel) size first limit p le fits enough =
    elim (Bool-cases (ltb first limit)) [
      | inl more ↦ rw more (
        refl,
        ground arith,
        split_range-Tiles fuel size (min (first +64 size) limit) limit p (omega arith) fits
            (ground arith),
      )
      | inr all ↦ rw all (ground arith)
    ]

part_size-ok :
    (total parts : ℕ)
    → 0 < parts
    → total + parts < 2 ^ 64
    → (size : ℕ) × (part_size total parts ≡ ok size) × (0 < size) × (size ≤ total + parts + 16)
unfolding part_size
part_size-ok total parts p fits =
    let some_parts : (parts == 0) ≡ false = ground arith in
    let share = (total +64 parts -64 1) / parts in
    let small : share ≤ total +64 parts -64 1 = div-le_self (total +64 parts -64 1) parts in
    elim (Bool-cases (ltb share 16)) [
      | inl little ↦ (16, rw (some_parts, little), omega arith, omega arith)
      | inr enough ↦ (share, rw (some_parts, enough), ground arith, omega arith)
    ]

-- The sub tasks of a task: the entries before `middle` are fetched and the others are filled, and
-- the ones before `middle` are those before the last entry of the contract.
pub record Splits (first limit last_kv : ℕ) (t : Task) : Type 0 where
  pub middle : ℕ
  pub fetched : List (ℕ × ℕ)
  pub filled : List (ℕ × ℕ)
  pub sub_tasks : t.sub_tasks ≡ sub_tasks_of fetched
  pub sub_empty_tasks : t.sub_empty_tasks ≡ sub_empty_tasks_of filled
  pub no_heal : t.heal_task ≡ []
  pub fetched_all : Tiles first middle fetched
  pub filled_all : Tiles middle limit filled
  pub in_contract : (i : ℕ) → first ≤ i → i < limit → (i < middle) ↔ (i < last_kv)

record Division (first limit last_kv : ℕ) (d : ℕ × ℕ × ℕ) : Type 0 where
  from_first : first ≤ d.0
  to_limit : d.0 ≤ limit
  empties : ((d.1 ≡ d.0) × (d.2 ≡ limit)) ⊎ ((d.0 ≡ limit) × (d.2 ≡ 0))
  in_contract : (i : ℕ) → first ≤ i → i < limit → (i < d.0) ↔ (i < last_kv)

divide_shard-Division :
    (first limit last_kv : ℕ)
    → first ≤ limit
    → Division first limit last_kv (divide_shard first limit last_kv)
unfolding divide_shard
divide_shard-Division first limit last_kv le = elim (Bool-cases (leb last_kv first)) [
  | inl none_there ↦ rw none_there (record {
    from_first = omega arith;
    to_limit = le;
    empties = inl (refl, refl);
    in_contract = λ i a b. (ground arith, ground arith);
  })
  | inr some_there ↦ elim (Bool-cases (leb last_kv limit)) [
    | inl inside ↦
        rw (some_there, inside)
          (record {
            from_first = ground arith;
            to_limit = ground arith;
            empties = inl (refl, refl);
            in_contract = λ i a b. (ground arith, ground arith);
          })
    | inr beyond ↦
        rw (some_there, beyond)
          (record {
            from_first = le;
            to_limit = omega arith;
            empties = inr (refl, refl);
            in_contract = λ i a b. (ground arith, ground arith);
          })
  ]
]

empty_ranges-ok :
    (threads first limit size : ℕ)
    → (limit == 0) ≡ false
    → limit -64 first ≡ limit - first
    → part_size (limit - first) threads ≡ ok size
    → empty_ranges threads first limit
      ≡ ok (split_range (limit - first) size first limit, limit - first)
unfolding empty_ranges
empty_ranges-ok threads first limit size some_there total sized = rw (some_there, total, sized)

empty_ranges-Tiles :
    (threads first limit_empty middle limit : ℕ)
    → 0 < threads
    → 2 * limit + threads + 16 < 2 ^ 64
    → middle ≤ limit
    → ((first ≡ middle) × (limit_empty ≡ limit)) ⊎ ((middle ≡ limit) × (limit_empty ≡ 0))
    → (rs : List (ℕ × ℕ)) × (n : ℕ) × (empty_ranges threads first limit_empty ≡ ok (rs, n))
      × Tiles middle limit rs
unfolding empty_ranges
empty_ranges-Tiles threads first limit_empty middle limit p fits le (inr (e, z)) =
    let none_there : (limit_empty == 0) ≡ true = ground arith in ([], 0, rw none_there, e)
empty_ranges-Tiles threads first limit_empty middle limit p fits le (inl (e, e')) =
    rw (e, e')
      (elim (Bool-cases (limit == 0)) [
        | inl none_there ↦ ([], 0, rw none_there, ground arith)
        | inr some_there ↦
            let total : limit -64 middle ≡ limit - middle =
              sub64_fits limit middle le (omega arith) in
            let (size, sized, pos, bound) = part_size-ok (limit - middle) threads p (omega arith) in
            (
              split_range (limit - middle) size middle limit,
              limit - middle,
              empty_ranges-ok threads middle limit size some_there total sized,
              split_range-Tiles (limit - middle) size middle limit pos le (omega arith)
                  (omega arith),
            )
      ])

abbrev task_of : List ℕ → ℕ → List (ℕ × ℕ) → List (ℕ × ℕ) → ℕ → Task
task_of contract sid fetched filled n = record {
  contract = contract;
  shard_id = sid;
  sub_tasks = sub_tasks_of fetched;
  next_idx = 0;
  heal_task = [];
  sub_empty_tasks = sub_empty_tasks_of filled;
  stateless_peers = [];
  state = record no_progress { empty_to_fill = n };
  done = false;
}

create_task-ok :
    (contract : List ℕ) (kv_entries concurrency threads sid last_kv first limit middle : ℕ)
    (empty_from empty_to size : ℕ) (filled : List (ℕ × ℕ)) (n : ℕ)
    → kv_entries *64 sid ≡ first
    → kv_entries *64 (sid +64 1) ≡ limit
    → divide_shard first limit last_kv ≡ (middle, empty_from, empty_to)
    → middle -64 first ≡ middle - first
    → part_size (middle - first) concurrency ≡ ok size
    → empty_ranges threads empty_from empty_to ≡ ok (filled, n)
    → create_task contract kv_entries concurrency threads sid last_kv
      ≡ ok (task_of contract sid (split_range (middle - first) size first middle) filled n)
unfolding create_task
create_task-ok contract kv_entries concurrency threads sid last_kv first limit middle empty_from
      empty_to size filled n start end division total sized made =
    rw (start, end, division, total, sized, made)

-- If the numbers fit a `uint64` and there is a positive number of parts, createTask splits a shard
-- into consecutive ranges: those before the last entry of the contract are fetched, the others
-- are filled.
pub create_task-Splits :
    (contract : List ℕ) (kv_entries concurrency threads sid last_kv : ℕ)
    → 0 < concurrency
    → 0 < threads
    → sid + 1 < 2 ^ 64
    → 2 * (kv_entries * (sid + 1)) + concurrency + threads + 16 < 2 ^ 64
    → (t : Task) × (create_task contract kv_entries concurrency threads sid last_kv ≡ ok t)
      × Splits (kv_entries * sid) (kv_entries * (sid + 1)) last_kv t
create_task-Splits contract kv_entries concurrency threads sid last_kv pc pt small fits =
    let le : kv_entries * sid ≤ kv_entries * (sid + 1) = mul-le-mul_left kv_entries (omega arith) in
    let start : kv_entries *64 sid ≡ kv_entries * sid = u64_fits (kv_entries * sid) (omega arith) in
    let end : kv_entries *64 (sid +64 1) ≡ kv_entries * (sid + 1) =
      ap (λ n. kv_entries *64 n) (u64_fits (sid + 1) small)
      ∙ u64_fits (kv_entries * (sid + 1)) (omega arith) in
    let d = divide_shard (kv_entries * sid) (kv_entries * (sid + 1)) last_kv in
    let v = divide_shard-Division (kv_entries * sid) (kv_entries * (sid + 1)) last_kv le in
    let total : d.0 -64 (kv_entries * sid) ≡ d.0 - kv_entries * sid =
      sub64_fits d.0 (kv_entries * sid) v.from_first (omega (arith, v.to_limit)) in
    let (size, sized, pos, bound) =
      part_size-ok (d.0 - kv_entries * sid) concurrency pc (omega (arith, v.to_limit)) in
    let (filled, n, made, tiles) =
      empty_ranges-Tiles threads d.1 d.2 d.0 (kv_entries * (sid + 1)) pt (omega arith) v.to_limit
        v.empties in
    (
      task_of contract sid (split_range (d.0 - kv_entries * sid) size (kv_entries * sid) d.0) filled
          n,
      create_task-ok contract kv_entries concurrency threads sid last_kv (kv_entries * sid)
          (kv_entries * (sid + 1)) d.0 d.1 d.2 size filled n start end refl total sized made,
      record {
        middle = d.0;
        fetched = split_range (d.0 - kv_entries * sid) size (kv_entries * sid) d.0;
        filled = filled;
        sub_tasks = refl;
        sub_empty_tasks = refl;
        no_heal = refl;
        fetched_all =
            split_range-Tiles (d.0 - kv_entries * sid) size (kv_entries * sid) d.0 pos v.from_first
              (omega (arith, v.to_limit)) (omega arith);
        filled_all = tiles;
        in_contract = v.in_contract;
      },
    )
