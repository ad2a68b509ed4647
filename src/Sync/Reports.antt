-- ===== src/Sync/Reports.antt =====
-- ethstorage/p2p/protocol/syncclient.go, reportSyncState and reportFillEmptyState: the progress of
-- a task, in hundredths of a percent. The time left and the logs are not modelled.
use native.Mathlib.Decide.{dec_lt}
use native.Mathlib.Nat.{div-add-mod', mod-lt, mul-le-mul_right}
use es_node.Prelude.{
  ℕ, ◌+◌, ◌*◌, ◌/◌, ◌^◌, ◌<◌, ◌≤◌, ◌≡◌, ◌↔◌, refl, Bool-cases, inl, inr, List, [], ◌∷◌, length,
  ◌==◌, ◌&&◌, if◌then◌else◌, arith, u64_fits, ◌+64◌, ◌-64◌, ◌*64◌,
}
use es_node.Prelude.Quotients.{quotient_lt}
use es_node.Sync.{SubTask, SubEmptyTask, Task}

unfoldable pub sum_to_sync : List SubTask → ℕ → ℕ
sum_to_sync [] sum = sum
sum_to_sync (st ∷ sts) sum = sum_to_sync sts (sum +64 (st.last -64 st.next))

unfoldable pub sum_to_fill : List SubEmptyTask → ℕ → ℕ
sum_to_fill [] sum = sum
sum_to_fill (st ∷ sts) sum = sum_to_fill sts (sum +64 (st.last -64 st.first))

-- done * 10000 / (done + left), where nothing at all keeps `idle`.
unfoldable pub progress : ℕ → ℕ → ℕ → ℕ
progress synced left idle =
    if synced +64 left == 0 then idle else (synced *64 10000) / (synced +64 left)

unfoldable pub report_sync_state : ℕ → Task → Task
unfolding sum_to_sync progress
report_sync_state duration t =
    let left = sum_to_sync t.sub_tasks 0 +64 length t.heal_task in
    record t {
      state = record t.state {
        blobs_to_sync = left;
        sync_progress = progress t.state.blobs_synced left 10000;
        synced_seconds =
            if left == 0 then t.state.synced_seconds else t.state.synced_seconds +64 duration;
      };
    }

unfoldable pub report_fill_empty_state : ℕ → Task → Task
unfolding sum_to_fill progress
report_fill_empty_state duration t =
    let left = sum_to_fill t.sub_empty_tasks 0 in
    if t.state.empty_filled == 0 && length t.sub_empty_tasks == 0
    then record t { state = record t.state { fill_empty_progress = 10000 } }
    else record t {
      state = record t.state {
        empty_to_fill = left;
        fill_empty_progress = progress t.state.empty_filled left t.state.fill_empty_progress;
        fill_empty_seconds =
            if left == 0
            then t.state.fill_empty_seconds
            else t.state.fill_empty_seconds +64 duration;
      };
    }

quotient_ge : (e b n : ℕ) → 0 < e → n * e ≤ b → n ≤ b / e
quotient_ge e b n p le = elim (dec_lt (b / e) n) [
  | yes less ↦
      let product : (b / e + 1) * e ≤ n * e = mul-le-mul_right e (omega arith) in
      absurd (omega (arith, product, div-add-mod' b e, mod-lt b p))
  | no more ↦ omega arith
]

progress-bound :
    (synced left : ℕ)
    → synced * 10000 < 2 ^ 64
    → synced + left < 2 ^ 64
    → (progress synced left 10000 ≤ 10000) × ((progress synced left 10000 ≡ 10000) ↔ (left ≡ 0))
unfolding progress
progress-bound synced left a b =
    let sum : synced +64 left ≡ synced + left = u64_fits (synced + left) b in
    let product : synced *64 10000 ≡ synced * 10000 = u64_fits (synced * 10000) a in
    elim (Bool-cases (synced + left == 0)) [
      | inl nothing ↦
          let zero_left : left ≡ 0 = ground arith in
          rw (sum, product, nothing) (omega arith, (λ _. zero_left, λ _. refl))
      | inr something ↦
          let n = synced + left in
          let some_blobs : 0 < synced + left = ground arith in
          let most = quotient_lt n (synced * 10000) 10001 some_blobs (omega arith) in
          rw (sum, product, something)
            (
              omega (arith, most),
              (
                λ all. elim (Bool-cases (left == 0)) [
                  | inl none_left ↦ ground arith
                  | inr some_left ↦ absurd (
                      omega (
                        arith,
                        all,
                        quotient_lt n (synced * 10000) 10000 some_blobs (ground arith),
                      ))
                ],
                λ none_left.
                    omega
                      (arith, most, quotient_ge n (synced * 10000) 10000 some_blobs (omega arith)),
              ),
            )
    ]

-- If the synced blobs times 10000, and the synced blobs together with those left, are below 2 ^ 64,
-- then a report of a task gives a progress of at most 10000, which is 10000 exactly when no blob is
-- left to sync.
pub report_sync_state-progress :
    (duration : ℕ) (t : Task)
    → t.state.blobs_synced * 10000 < 2 ^ 64
    → t.state.blobs_synced + (report_sync_state duration t).state.blobs_to_sync < 2 ^ 64
    → ((report_sync_state duration t).state.sync_progress ≤ 10000)
      × (((report_sync_state duration t).state.sync_progress ≡ 10000)
          ↔ ((report_sync_state duration t).state.blobs_to_sync ≡ 0))
unfolding report_sync_state
report_sync_state-progress duration t a b =
    progress-bound t.state.blobs_synced (sum_to_sync t.sub_tasks 0 +64 length t.heal_task) a b
