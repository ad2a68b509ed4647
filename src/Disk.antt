-- ===== src/Disk.antt =====
-- Go's `os.File`: the bytes, the size, and whether the file is open. A write succeeds in full or
-- fails with nothing written; the offsets are the bit patterns of `int64` values.
pub mod Laws
use es_node.Prelude.{
  ℕ, ◌+◌, ◌-◌, ◌^◌, ◌&&◌, Bool, true, false, not, List, [], ◌∷◌, length, ltb, leb, if◌then◌else◌,
  Content, slice, pad_to, overlay,
}
use es_node.Outcome.{
  Outcome, ok, err, panic, Exec, file_closed, negative_offset, end_of_file, file_too_large,
}

pub record File : Type 0 where
  pub is_open : Bool
  pub size : ℕ
  pub content : Content

-- os.Create, on a name that is free or is truncated
abbrev pub created : File
created = record { is_open = true; size = 0; content = λ p. 0 }

-- ReadAt into a buffer of `n` bytes; fewer bytes come with an error.
unfoldable pub read_at : File → ℕ → ℕ → Outcome (List ℕ)
read_at f off n =
    if not f.is_open
    then err file_closed
    else if leb (2 ^ 63) off
    then err negative_offset
    else if ltb 0 n && ltb f.size (off + n)
    then err end_of_file
    else ok (slice f.content off n)

-- What ReadAt leaves in a fresh buffer of `n` bytes, also beside an error: at the end of the file the
-- bytes that are there.
unfoldable pub buffer_at : File → ℕ → ℕ → List ℕ
unfolding read_at
buffer_at f off n = elim (read_at f off n) [
  | ok b ↦ b
  | err e ↦
      if f.is_open && ltb off (2 ^ 63)
      then pad_to n (slice f.content off (f.size - off))
      else pad_to n []
  | panic ↦ pad_to n []
]

-- WriteAt; the file grows where the bytes pass its end.
unfoldable pub write_at : ℕ → List ℕ → Exec File (Unit {0})
write_at off b f =
    if not f.is_open
    then (err file_closed, f)
    else if leb (2 ^ 63) off
    then (err negative_offset, f)
    else if leb (2 ^ 63) (off + length b)
    then (err file_too_large, f)
    else (
      ok tt,
      record f {
        size = (if ltb f.size (off + length b) then off + length b else f.size);
        content = overlay f.content off b;
      },
    )

unfoldable pub close : Exec File (Unit {0})
close f = if not f.is_open then (err file_closed, f) else (ok tt, record f { is_open = false })
