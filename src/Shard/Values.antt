-- ===== src/Shard/Values.antt =====
-- Whole values: the chunks that a write leaves are those that a read finds
-- (ethstorage/data_shard.go, the loops of WriteWith and readWith).
use native.Mathlib.Decide.{ℕ_discrete}
use es_node.Prelude.{
  ℕ, zero, suc, ◌+◌, ◌-◌, ◌*◌, ◌^◌, ◌≤◌, ◌<◌, ◌≡◌, refl, sym, ap, subst, ◌∙◌, ◌⊎◌, inl, true, false,
  List, [], ◌∷◌, ◌++◌, Option, none, some, length, take, drop, drop_all, drop-drop,
  take-append-drop, ◌==◌, arith, u64_fits, min, ◌*64◌, ◌+64◌,
}
use es_node.Outcome.{Outcome, ok}
use es_node.DataFile
use es_node.DataFile.{DataFile}
use es_node.DataFile.Valid.{row_le, le_mul}
use es_node.Shard.{read_chunk, write_chunk, read_meta, write_meta}
use es_node.Shard.Files.{
  AllFiles, has_chunk, has_kv, has_chunk-write_chunk, has_kv-write_chunk, AllFiles-write_chunk,
  read_chunk-write_chunk_self, read_chunk-write_chunk_ne, read_meta-write_chunk,
}
use es_node.Shard.Access.{Coder, sub_slice, read_chunks, write_chunks}

-- Chunk i of the bytes of a value.
abbrev pub chunk_of : ℕ → List ℕ → ℕ → List ℕ
chunk_of cs cb i = take cs (drop (i * cs) cb)

-- The encode type and the provider of the first file, which are those of the shard.
unfoldable pub head_params : List DataFile → Option (ℕ × List ℕ)
head_params [] = none
head_params (df ∷ _) = some (df.encode_type, df.miner)

pub head_params-write_chunk :
    (i : ℕ) (b : List ℕ) (dfs : List DataFile)
    → head_params (write_chunk i b dfs).1 ≡ head_params dfs
unfolding head_params write_chunk DataFile.write
head_params-write_chunk i b [] = refl
head_params-write_chunk i b (df ∷ dfs) = ground arith

pub head_params-write_meta :
    (i : ℕ) (b : List ℕ) (dfs : List DataFile)
    → head_params (write_meta i b dfs).1 ≡ head_params dfs
unfolding head_params write_meta DataFile.write_meta
head_params-write_meta i b [] = refl
head_params-write_meta i b (df ∷ dfs) = ground arith

-- What the files hold after the chunks base + lo, ..., base + hi - 1 were written.
pub record Written (cs base lo hi : ℕ) (enc : ℕ → List ℕ) (dfs : List DataFile)
    (r : Outcome (Unit {0}) × List DataFile) : Type 0 where
  pub succeeds : r.0 ≡ ok tt
  pub files : AllFiles cs r.1
  pub inside : (j : ℕ) → lo ≤ j → j < hi → read_chunk r.1 (base + j) cs ≡ ok (enc j)
  pub outside :
      (k n : ℕ) → (k < base + lo) ⊎ (base + hi ≤ k) → read_chunk r.1 k n ≡ read_chunk dfs k n
  pub metas : (k : ℕ) → read_meta r.1 k ≡ read_meta dfs k
  pub same_kvs : (k : ℕ) → has_kv r.1 k ≡ has_kv dfs k
  pub same_chunks : (k : ℕ) → has_chunk r.1 k ≡ has_chunk dfs k
  pub same_head : head_params r.1 ≡ head_params dfs

-- Sizes for which no index and no offset wraps.
pub record Fits (cs base total : ℕ) (cb : List ℕ) : Type 0 where
  pub whole : length cb ≡ total * cs
  pub bytes : total * cs < 2 ^ 63
  pub indices : base + total < 2 ^ 64
  pub chunk_pos : 0 < cs

pub sub_slice-chunk_of :
    {cs base total : ℕ} {cb : List ℕ}
    → Fits cs base total cb
    → (i : ℕ) → i < total
    → sub_slice cb (i *64 cs) ((i +64 1) *64 cs) ≡ ok (chunk_of cs cb i)
unfolding sub_slice
sub_slice-chunk_of {cs} {base} {total} {cb} f i h =
    let row = row_le i total cs h in
    let small = le_mul total cs f.chunk_pos in
    let lo : i *64 cs ≡ i * cs = u64_fits (i * cs) (omega (arith, f.bytes)) in
    let next : i +64 1 ≡ i + 1 = u64_fits (i + 1) (omega (arith, f.bytes)) in
    let hi : (i + 1) *64 cs ≡ i * cs + cs = omega (arith, f.bytes) in
    let gap : i * cs + cs - i * cs ≡ cs = omega arith in
    rw (lo, next, hi, gap) (ground (arith, f.whole))

-- The chunk that was written first is not touched by the later ones.
Written-first :
    {cs base hi : ℕ} {enc : ℕ → List ℕ} {r : Outcome (Unit {0}) × List DataFile} (i : ℕ)
    (dfs : List DataFile)
    → AllFiles cs dfs
    → i < hi
    → length (enc i) ≡ cs
    → read_chunk (write_chunk (base + i) (enc i) dfs).1 (base + i) (length (enc i)) ≡ ok (enc i)
    → Written cs base (i + 1) hi enc (write_chunk (base + i) (enc i) dfs).1 r
    → Written cs base i hi enc dfs r
Written-first {cs} {base} {hi} {enc} {r} i dfs a below size back rest = record {
  succeeds = rest.succeeds;
  files = rest.files;
  inside = λ j p q. elim (ℕ_discrete i j) [
    | yes same ↦
        subst (λ t. read_chunk r.1 (base + t) cs ≡ ok (enc t)) same
          (rest.outside (base + i) cs (inl (omega arith))
            ∙ subst
                (λ n. read_chunk (write_chunk (base + i) (enc i) dfs).1 (base + i) n ≡ ok (enc i))
                size back)
    | no other ↦ rest.inside j (omega arith) q
  ];
  outside = λ k n p.
      rest.outside k n (omega arith)
      ∙ read_chunk-write_chunk_ne cs (base + i) (enc i) dfs k n a (omega arith);
  metas = λ k. rest.metas k ∙ read_meta-write_chunk cs (base + i) (enc i) dfs k a;
  same_kvs = λ k. rest.same_kvs k ∙ has_kv-write_chunk (base + i) (enc i) dfs k;
  same_chunks = λ k. rest.same_chunks k ∙ has_chunk-write_chunk (base + i) (enc i) dfs k;
  same_head = rest.same_head ∙ head_params-write_chunk (base + i) (enc i) dfs;
}

module _ {cs base total : ℕ} {cb : List ℕ} (f : Fits cs base total cb) (encoder : Coder)
    (enc : ℕ → List ℕ)
    (codes : (i : ℕ)
      → i < total
      → (encoder (chunk_of cs cb i) (base + i) ≡ ok (enc i)) × (length (enc i) ≡ cs)) where
  pub write_chunks-suc :
      (n i : ℕ) (dfs : List DataFile)
      → i < total
      → (write_chunk (base + i) (enc i) dfs).0 ≡ ok tt
      → write_chunks encoder cs cb base i (suc n) dfs
        ≡ write_chunks encoder cs cb base (i + 1) n (write_chunk (base + i) (enc i) dfs).1
  unfolding write_chunks
  write_chunks-suc n i dfs h w =
      rw
        (sub_slice-chunk_of f i h, u64_fits (base + i) (omega (arith, f.indices)), (codes i h).0, w)

  pub write_chunks-Written :
      (n i : ℕ) (dfs : List DataFile)
      → i + n ≡ total
      → AllFiles cs dfs
      → ((j : ℕ) → j < total → has_chunk dfs (base + j) ≡ true)
      → Written cs base i total enc dfs (write_chunks encoder cs cb base i n dfs)
  unfolding write_chunks
  write_chunks-Written zero i dfs e a has = record {
    succeeds = refl;
    files = a;
    inside = λ j p q. absurd (omega arith);
    outside = λ k n p. refl;
    metas = λ k. refl;
    same_kvs = λ k. refl;
    same_chunks = λ k. refl;
    same_head = refl;
  }
  write_chunks-Written (suc n) i dfs e a has =
      let below : i < total = omega arith in
      let b = enc i in
      let size : length b ≡ cs = (codes i below).1 in
      let (w, back) =
        read_chunk-write_chunk_self cs (base + i) b dfs a (has i below) (omega arith) in
      let dfs' = (write_chunk (base + i) b dfs).1 in
      let rest =
        write_chunks-Written n (i + 1) dfs' (omega arith)
          (AllFiles-write_chunk cs (base + i) b dfs a)
          (λ j q. has_chunk-write_chunk (base + i) b dfs (base + j) ∙ has j q) in
      rw (write_chunks-suc n i dfs below w) (Written-first i dfs a below size back rest)

-- The parts i, i + 1, ... of a value, `n` of them.
unfoldable pub joined : (ℕ → List ℕ) → ℕ → ℕ → List ℕ
joined part i zero = []
joined part i (suc n) = part i ++ joined part (i + 1) n

pub joined-chunk_of :
    (cs : ℕ) (cb : List ℕ) (n i : ℕ)
    → length cb ≡ (i + n) * cs
    → joined (chunk_of cs cb) i n ≡ drop (i * cs) cb
unfolding joined
joined-chunk_of cs cb zero i e = sym (drop_all (i * cs) cb (omega arith))
joined-chunk_of cs cb (suc n) i e =
    ap (λ t. chunk_of cs cb i ++ t)
      (joined-chunk_of cs cb n (i + 1) (omega arith)
        ∙ sym (drop-drop (i * cs) cs ((i + 1) * cs) cb (omega arith)))
    ∙ take-append-drop cs (drop (i * cs) cb)

module _ {cs base total : ℕ} {cb : List ℕ} (f : Fits cs base total cb) (decoder : Coder)
    (dfs : List DataFile) (enc : ℕ → List ℕ)
    (held : (j : ℕ) → j < total → read_chunk dfs (base + j) cs ≡ ok (enc j))
    (decodes : (j : ℕ) → j < total → decoder (enc j) (base + j) ≡ ok (chunk_of cs cb j)) where
  read_chunks-joined :
      (n i : ℕ)
      → i + n ≡ total
      → read_chunks dfs cs decoder (base + i) n (n * cs) ≡ ok (joined (chunk_of cs cb) i n)
  unfolding read_chunks joined
  read_chunks-joined zero i e = refl
  read_chunks-joined (suc n) i e =
      let below : i < total = omega arith in
      let more : (suc n * cs == 0) ≡ false = ground (arith, f.chunk_pos) in
      let len : min (suc n * cs) cs ≡ cs = omega arith in
      let left : suc n * cs - cs ≡ n * cs = omega arith in
      let next : base + i +64 1 ≡ base + (i + 1) = omega (arith, f.indices) in
      rw (
        more,
        len,
        left,
        next,
        held i below,
        decodes i below,
        read_chunks-joined n (i + 1) (omega arith),
      )

  pub read_chunks-eq : read_chunks dfs cs decoder base total (total * cs) ≡ ok cb
  read_chunks-eq =
      let start : base + 0 ≡ base = omega arith in
      let zero_at : 0 * cs ≡ 0 = omega arith in
      rw (← start) (
        read_chunks-joined total 0 (omega arith)
        ∙ ap ok
            (joined-chunk_of cs cb total 0 (omega (arith, f.whole)) ∙ ap (λ t. drop t cb) zero_at))
