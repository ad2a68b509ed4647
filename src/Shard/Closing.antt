-- ===== src/Shard/Closing.antt =====
-- ethstorage/data_shard.go, Close: the files after a successful close.
use es_node.Prelude.{◌≡◌, refl, true, false, List, [], ◌∷◌}
use es_node.Outcome.{ok}
use es_node.Disk
use es_node.Disk.{File}
use es_node.DataFile
use es_node.DataFile.{DataFile}
use es_node.Shard.{close}

abbrev AllClosed : List DataFile → Type 0
AllClosed [] = Unit
AllClosed (df ∷ dfs) = (df.file.is_open ≡ false) × AllClosed dfs

abbrev pub AllOpen : List DataFile → Type 0
AllOpen [] = Unit
AllOpen (df ∷ dfs) = (df.file.is_open ≡ true) × AllOpen dfs

-- Closing a shard whose files are all open succeeds and leaves every file closed.
close-AllClosed :
    (dfs : List DataFile) → AllOpen dfs → ((close dfs).0 ≡ ok tt) × AllClosed (close dfs).1
unfolding close DataFile.close Disk.close
close-AllClosed [] o = (refl, tt)
close-AllClosed (df ∷ dfs) (o, os) = let (r, c) = close-AllClosed dfs os in rw o (r, (refl, c))
