-- ===== src/Tests/Shards.antt =====
-- Shards.
use es_node.Prelude.{◌≡◌, refl, [], ◌∷◌, pad_to, arith}
use es_node.Outcome.{ok}
use es_node.Shard
use es_node.Shard.Access
use es_node.Shard.RoundTrip.{write-read, IsShard}
use es_node.Tests.World.{
  world, world-Laws, small_shard, small_shard-IsShard, small_shard-HoldsKv, some_commit,
}

write-read_example :
    ((Access.write world 1 (4 ∷ 5 ∷ []) some_commit small_shard).0 ≡ ok tt)
    × IsShard (Access.write world 1 (4 ∷ 5 ∷ []) some_commit small_shard).1
    × (Access.read_decoded world
          (Access.write world 1 (4 ∷ 5 ∷ []) some_commit small_shard).1
          1
          some_commit
        ≡ ok (pad_to 128 (4 ∷ 5 ∷ [])))
    × (Shard.read_meta (Access.write world 1 (4 ∷ 5 ∷ []) some_commit small_shard).1.data_files 1
        ≡ ok some_commit)
write-read_example =
    write-read world-Laws small_shard-IsShard 1 small_shard-HoldsKv (4 ∷ 5 ∷ []) some_commit
      (omega arith) refl some_commit refl
