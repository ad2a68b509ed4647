-- ===== src/Disk/Laws.antt =====
-- Reads after writes on one open file.
use es_node.Prelude.{ℕ, ◌+◌, ◌^◌, ◌≤◌, ◌<◌, ◌≡◌, true, List, length, arith, slice, overlay}
use es_node.Outcome.{ok}
use es_node.Disk.{File, read_at, write_at}

-- `n` bytes at `off` are inside an open file.
pub record Holds (f : File) (off n : ℕ) : Type 0 where
  pub opened : f.is_open ≡ true
  pub within : off + n ≤ f.size
  pub signed : off + n < 2 ^ 63

pub read_at-ok :
    (f : File) (off n : ℕ) → Holds f off n → read_at f off n ≡ ok (slice f.content off n)
unfolding read_at
read_at-ok f off n h = ground arith

pub write_at-ok :
    (f : File) (off : ℕ) (b : List ℕ)
    → Holds f off (length b)
    → write_at off b f ≡ (ok tt, record f { content = overlay f.content off b })
unfolding write_at
write_at-ok f off b h = ground arith
