-- ===== src/Shard/Agreement.antt =====
-- The files of a shard agree on their parameters (ethstorage/data_shard.go, AddDataFile).
use es_node.Prelude.{
  ◌≡◌, refl, sym, not, List, [], ◌∷◌, ◌++◌, ◌==◌, arith, bytes_equal, bytes_equal_eq,
}
use es_node.Outcome.{
  Outcome, ok, err, panic, >>=-eq-ok, refuse_if, refuse_if-eq-ok, mismatched_miner,
  mismatched_encode_type, mismatched_max_kv_size,
}
use es_node.DataFile.{DataFile}
use es_node.Shard.{DataShard, add_data_file, check_first}

-- Miner, encode type and entry size of a file are those of another one.
pub record Alike (first df : DataFile) : Type 0 where
  pub miner : df.miner ≡ first.miner
  pub encode_type : df.encode_type ≡ first.encode_type
  pub max_kv_size : df.max_kv_size ≡ first.max_kv_size

abbrev AllAlike : DataFile → List DataFile → Type 0
AllAlike first [] = Unit
AllAlike first (df ∷ dfs) = Alike first df × AllAlike first dfs

-- Every file is like the first.
abbrev pub Agree : List DataFile → Type 0
Agree [] = Unit
Agree (first ∷ dfs) = AllAlike first dfs

AllAlike-append :
    (first df : DataFile) (dfs : List DataFile)
    → AllAlike first dfs
    → Alike first df
    → AllAlike first (dfs ++ df ∷ [])
AllAlike-append first df [] a h = (h, tt)
AllAlike-append first df (d ∷ dfs) a h = (a.0, AllAlike-append first df dfs a.1 h)

check_first-Alike :
    (first df : DataFile) (dfs : List DataFile) {u : Unit {0}}
    → check_first (first ∷ dfs) df ≡ ok u
    → Alike first df
unfolding check_first
check_first-Alike first df dfs h =
    let (u0, e0, h0) =
      >>=-eq-ok (refuse_if (not (bytes_equal first.miner df.miner)) mismatched_miner) _ h in
    let (u1, e1, h1) =
      >>=-eq-ok (refuse_if (not (first.encode_type == df.encode_type)) mismatched_encode_type) _
        h0 in
    let same = refuse_if-eq-ok (not (bytes_equal first.miner df.miner)) mismatched_miner e0 in
    record {
      miner = sym (bytes_equal_eq first.miner df.miner (ground arith));
      encode_type = ground (
        arith,
        refuse_if-eq-ok (not (first.encode_type == df.encode_type)) mismatched_encode_type e1,
      );
      max_kv_size = ground (
        arith,
        refuse_if-eq-ok (not (first.max_kv_size == df.max_kv_size)) mismatched_max_kv_size h1,
      );
    }

-- AddDataFile keeps the files of a shard alike in miner, encode type and entry size, whether it
-- accepts the file or refuses it.
pub add_data_file-Agree :
    (df : DataFile) (ds : DataShard)
    → Agree ds.data_files
    → Agree (add_data_file df ds).1.data_files
unfolding add_data_file check_first
add_data_file-Agree df ds a = agreed ds.data_files refl (check_first ds.data_files df) refl
  where
    agreed :
        (dfs : List DataFile)
        → ds.data_files ≡ dfs
        → (r : Outcome (Unit {0})) → check_first ds.data_files df ≡ r
        → Agree (add_data_file df ds).1.data_files
    agreed dfs e (err c) q = rw q a
    agreed dfs e panic q = rw q a
    agreed [] e (ok u) q = rw (q, e) tt
    agreed (first ∷ dfs) e (ok u) q =
        rw (q, e)
          (AllAlike-append first df dfs (rw e at a) (check_first-Alike first df dfs (rw e at q)))
