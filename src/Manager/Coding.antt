-- ===== src/Manager/Coding.antt =====
-- Values coded chunk by chunk (ethstorage/shard_manager.go, the loop of DecodeOrEncodeKV), and
-- coded values written as they are (TryWriteEncoded).
use mathlib.Core.Path.{fun_ext}
use es_node.Prelude.{
  ℕ, zero, suc, ◌+◌, ◌-◌, ◌*◌, ◌^◌, ◌≤◌, ◌<◌, ◌≡◌, refl, sym, ap, ◌∙◌, false, List, ◌++◌, length,
  length-append, take, drop, drop_append, take_append, drop-drop, arith, ◌==◌, min, u64_fits, ◌*64◌,
  ◌+64◌,
}
use es_node.Outcome.{Outcome, ok, then_do}
use es_node.DataFile.{DataFile}
use es_node.DataFile.Valid.{row_le, le_mul}
use es_node.Shard.{write_chunk}
use es_node.Shard.Access.{Coder, write_chunks}
use es_node.Shard.Values.{chunk_of, joined, Fits, sub_slice-chunk_of}
use es_node.Manager.Access.{code_chunks}

-- Parts of one size, joined, have the parts as their chunks.
module _ (cs : ℕ) (part : ℕ → List ℕ) where
  length-joined :
      (n i : ℕ)
      → ((j : ℕ) → i ≤ j → j < i + n → length (part j) ≡ cs)
      → length (joined part i n) ≡ n * cs
  unfolding joined
  length-joined zero i sizes = omega arith
  length-joined (suc n) i sizes = omega (
    arith,
    length-append (part i) (joined part (i + 1) n),
    sizes i (omega arith) (omega arith),
    length-joined n (i + 1) (λ j p q. sizes j (omega arith) (omega arith)),
  )

  chunk_of-joined_from :
      (n i k : ℕ)
      → k < n
      → ((j : ℕ) → i ≤ j → j < i + n → length (part j) ≡ cs)
      → chunk_of cs (joined part i n) k ≡ part (i + k)
  unfolding joined
  chunk_of-joined_from zero i k h sizes = absurd (omega arith)
  chunk_of-joined_from (suc n) i zero h sizes =
      let none : 0 * cs ≡ 0 = omega arith in
      let same : i + 0 ≡ i = omega arith in
      rw (none, same)
        (take_append cs (part i) (joined part (i + 1) n)
          (sym (sizes i (omega arith) (omega arith))))
  chunk_of-joined_from (suc n) i (suc k) h sizes =
      let first : cs ≡ length (part i) = sym (sizes i (omega arith) (omega arith)) in
      let next : i + 1 + k ≡ i + suc k = omega arith in
      ap (take cs) (
        sym (drop-drop cs (k * cs) (suc k * cs) (part i ++ joined part (i + 1) n) (omega arith))
        ∙ ap (drop (k * cs)) (drop_append cs (part i) (joined part (i + 1) n) first))
      ∙ chunk_of-joined_from n (i + 1) k (omega arith)
          (λ j p q. sizes j (omega arith) (omega arith))
      ∙ ap part next

  pub Fits-joined :
      (base total : ℕ)
      → ((j : ℕ) → j < total → length (part j) ≡ cs)
      → total * cs < 2 ^ 63
      → base + total < 2 ^ 64
      → 0 < cs
      → Fits cs base total (joined part 0 total)
  Fits-joined base total sizes bytes indices pos = record {
    whole = length-joined total 0 (λ j p q. sizes j (omega arith));
    bytes = bytes;
    indices = indices;
    chunk_pos = pos;
  }

  pub chunk_of-joined :
      (total k : ℕ)
      → k < total
      → ((j : ℕ) → j < total → length (part j) ≡ cs)
      → chunk_of cs (joined part 0 total) k ≡ part k
  chunk_of-joined total k h sizes =
      chunk_of-joined_from total 0 k h (λ j p q. sizes j (omega arith)) ∙ ap part (omega arith)

slice_end :
    {cs base total : ℕ} {cb : List ℕ}
    → Fits cs base total cb
    → (i : ℕ) → i < total
    → i *64 cs +64 cs ≡ (i +64 1) *64 cs
slice_end {cs} {base} {total} f i below =
    let row = row_le i total cs below in
    let small = le_mul total cs f.chunk_pos in
    let next : i +64 1 ≡ i + 1 = u64_fits (i + 1) (omega (arith, f.bytes)) in
    rw next (omega (arith, f.bytes))

-- Coding goes over the chunks of the value.
module _ {cs base total : ℕ} {cb : List ℕ} (f : Fits cs base total cb) (coder : Coder)
    (out : ℕ → List ℕ)
    (codes : (i : ℕ) → i < total → coder (chunk_of cs cb i) (base + i) ≡ ok (out i)) where
  code_chunks_from :
      (n i : ℕ) → i + n ≡ total → code_chunks coder cs cb base i n (n * cs) ≡ ok (joined out i n)
  unfolding code_chunks joined
  code_chunks_from zero i e = refl
  code_chunks_from (suc n) i e =
      let below : i < total = omega arith in
      let row = row_le i total cs below in
      let more : (suc n * cs == 0) ≡ false = ground (arith, f.chunk_pos) in
      let len : min (suc n * cs) cs ≡ cs = omega arith in
      let left : suc n * cs - cs ≡ n * cs = omega arith in
      let end : i *64 cs +64 cs ≡ (i +64 1) *64 cs = slice_end f i below in
      let at_i : base +64 i ≡ base + i = u64_fits (base + i) (omega (arith, f.indices)) in
      rw (
        more,
        len,
        left,
        end,
        at_i,
        sub_slice-chunk_of f i below,
        codes i below,
        code_chunks_from n (i + 1) (omega arith),
      )

  pub code_chunks-joined :
      code_chunks coder cs cb base 0 total (length cb) ≡ ok (joined out 0 total)
  code_chunks-joined =
      ap (code_chunks coder cs cb base 0 total) f.whole ∙ code_chunks_from total 0 (omega arith)

-- Writes of equally coded chunks are equal.
pub write_chunks_ext :
    {cs base total : ℕ} {cb cb' : List ℕ}
    → Fits cs base total cb
    → Fits cs base total cb'
    → (coder coder' : Coder)
    → ((i : ℕ)
        → i < total
        → coder (chunk_of cs cb i) (base + i) ≡ coder' (chunk_of cs cb' i) (base + i))
    → (n i : ℕ) (dfs : List DataFile) → i + n ≡ total
    → write_chunks coder cs cb base i n dfs ≡ write_chunks coder' cs cb' base i n dfs
unfolding write_chunks
write_chunks_ext f f' coder coder' same zero i dfs e = refl
write_chunks_ext {cs} {base} {total} {cb} {cb'} f f' coder coder' same (suc n) i dfs e =
    let below : i < total = omega arith in
    let at_i : base +64 i ≡ base + i = u64_fits (base + i) (omega (arith, f.indices)) in
    rw (sub_slice-chunk_of f i below, sub_slice-chunk_of f' i below, at_i, same i below)
      (ap
        (λ (k : List DataFile → Outcome (Unit {0}) × List DataFile).
          then_do (coder' (chunk_of cs cb' i) (base + i), dfs)
            (λ encoded fs. then_do (write_chunk (base + i) encoded fs) (λ _ fs'. k fs')))
        (fun_ext (λ fs'. write_chunks_ext f f' coder coder' same n (i + 1) fs' (omega arith))))
