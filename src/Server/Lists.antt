-- ===== src/Server/Lists.antt =====
-- The answer to a list request (ethstorage/p2p/protocol/syncserver.go): the blobs that can be
-- read, in the order of the list, up to the one that fills the answer.
use es_node.Prelude.{
  ℕ, ◌+◌, ◌^◌, ◌<◌, ◌≤◌, ◌≡◌, refl, Bool-cases, inl, inr, List, [], ◌∷◌, length, leb, if◌then◌else◌,
  arith, u64_fits, ◌+64◌,
}
use es_node.Outcome.{Error, Outcome, ok, err, panic}
use es_node.Server.{serve_list}
use es_node.Sync.Client.{BlobPayload}

-- The blobs that can be read.
unfoldable pub readable : (ℕ → Outcome BlobPayload) → List ℕ → List BlobPayload
readable read_blob [] = []
readable read_blob (idx ∷ idxs) = elim (read_blob idx) [
  | ok payload ↦ payload ∷ readable read_blob idxs
  | err _ ↦ readable read_blob idxs
  | panic ↦ readable read_blob idxs
]

-- The first blobs, up to the one with which they have `maxbytes` bytes and the `sum` before them.
unfoldable pub until_full : ℕ → ℕ → List BlobPayload → List BlobPayload
until_full maxbytes sum [] = []
until_full maxbytes sum (p ∷ ps) =
    if leb maxbytes (sum + length p.encoded_blob)
    then p ∷ []
    else p ∷ until_full maxbytes (sum + length p.encoded_blob) ps

-- A read that does not panic, of a blob whose size can be added up.
pub data Reading (r : Outcome BlobPayload) : Type 0 where
  is_ok : (p : BlobPayload) → r ≡ ok p → length p.encoded_blob < 2 ^ 63 → Reading r
  is_err : (e : Error) → r ≡ err e → Reading r

abbrev pub Reads : (ℕ → Outcome BlobPayload) → List ℕ → Type 0
Reads read_blob [] = Unit
Reads read_blob (idx ∷ idxs) = Reading (read_blob idx) × Reads read_blob idxs

pub serve_list-eq :
    (read_blob : ℕ → Outcome BlobPayload) (maxbytes : ℕ) (idxs : List ℕ) (sum : ℕ)
    → Reads read_blob idxs
    → maxbytes ≤ 2 ^ 63
    → sum < 2 ^ 63
    → serve_list read_blob maxbytes idxs sum
      ≡ ok (until_full maxbytes sum (readable read_blob idxs))
unfolding serve_list readable until_full
serve_list-eq read_blob maxbytes [] sum r small before = refl
serve_list-eq read_blob maxbytes (idx ∷ idxs) sum r small before = elim r.0 [
  | is_err e h ↦
      rw (h, serve_list, readable) (serve_list-eq read_blob maxbytes idxs sum r.1 small before)
  | is_ok p h size ↦
      let add : sum +64 length p.encoded_blob ≡ sum + length p.encoded_blob =
        u64_fits _ (omega arith) in
      elim (Bool-cases (leb maxbytes (sum + length p.encoded_blob))) [
        | inl full ↦ rw (h, serve_list, readable, add, full) refl
        | inr more ↦
            rw
              (
                h,
                serve_list,
                readable,
                add,
                more,
                add,
                serve_list-eq read_blob maxbytes idxs (sum + length p.encoded_blob) r.1 small
                    (ground arith),
              )
              refl
      ]
]
