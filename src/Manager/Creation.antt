-- ===== src/Manager/Creation.antt =====
-- The parameters that NewShardManager derives (ethstorage/shard_manager.go).
use native.Mathlib.Nat.{pow-suc, mul-div_cancel, pow-le-pow_right, one-le-pow}
use es_node.Prelude.{
  ℕ, zero, suc, ◌-◌, ◌≤◌, ◌<◌, ◌^◌, ◌≡◌, refl, arith, List, [], ltb, ◌/◌, ◌-64◌, sub64_fits, false,
  ap, sym, ◌∙◌, ◌*◌, ◌+◌,
}
use es_node.Outcome.{ok}
use es_node.Pow2.{check_and_get_bits-pow}
use es_node.Manager.{ShardManager, new_shard_manager}

pow_sum : (d c : ℕ) → 2 ^ (d + c) ≡ 2 ^ d * 2 ^ c
pow_sum d zero =
    let shift : 2 ^ (d + 0) ≡ 2 ^ d = ap (λ n. 2 ^ n) (omega arith) in omega (arith, shift)
pow_sum d (suc c) =
    let shift : 2 ^ (d + suc c) ≡ 2 ^ suc (d + c) = ap (λ n. 2 ^ n) (omega arith) in
    let ih = pow_sum d c in grind (arith, shift, pow-suc 2 (d + c), pow-suc 2 c)

pow_ratio : (a c : ℕ) → c ≤ a → 2 ^ a / 2 ^ c ≡ 2 ^ (a - c)
pow_ratio a c h =
    ap (λ n. n / 2 ^ c) (ap (λ n. 2 ^ n) (omega arith) ∙ pow_sum (a - c) c)
    ∙ mul-div_cancel (2 ^ (a - c)) (one-le-pow c 2 (omega arith))

-- For a value of 2 ^ a bytes, 2 ^ b entries and chunks of 2 ^ c bytes with c at most a, the shard
-- manager has no shard, and the bits that it keeps are the exponents of the sizes that it keeps.
pub new_shard_manager-pow :
    (address : List ℕ) (a b c : ℕ)
    → a < 64
    → b < 64
    → c ≤ a
    → (sm : ShardManager) × (new_shard_manager address (2 ^ a) (2 ^ b) (2 ^ c) ≡ ok sm)
      × (sm.kv_size ≡ 2 ^ sm.kv_size_bits)
      × (sm.kv_entries ≡ 2 ^ sm.kv_entries_bits)
      × (sm.chunk_size ≡ 2 ^ sm.chunk_size_bits)
      × (sm.chunks_per_kv ≡ 2 ^ sm.chunks_per_kv_bits)
unfolding new_shard_manager
new_shard_manager-pow address a b c ha hb hc =
    let large : ltb (2 ^ a) (2 ^ c) ≡ false =
      ground (arith, pow-le-pow_right {n = 2} (omega arith) hc) in
    let bits : a -64 c ≡ a - c = sub64_fits a c hc (omega arith) in
    let ratio : 2 ^ a / 2 ^ c ≡ 2 ^ (a - c) = pow_ratio a c hc in
    (
      record {
        shard_map = [];
        contract_address = address;
        kv_size_bits = a;
        kv_size = 2 ^ a;
        chunks_per_kv_bits = a -64 c;
        chunks_per_kv = 2 ^ a / 2 ^ c;
        kv_entries_bits = b;
        kv_entries = 2 ^ b;
        chunk_size = 2 ^ c;
        chunk_size_bits = c;
      },
      rw (
        large,
        check_and_get_bits-pow a ha,
        check_and_get_bits-pow b hb,
        check_and_get_bits-pow c (omega arith),
      ),
      refl,
      refl,
      refl,
      ratio ∙ ap (λ n. 2 ^ n) (sym bits),
    )
