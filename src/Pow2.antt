-- ===== src/Pow2.antt =====
-- ethstorage/shard_manager.go, isPow2n and checkAndGetBits: the test by `v & (v - 1)`.
use es_node.Prelude.Digits.{zero-bit_and, bit_and_halves}
use native.Mathlib.Nat.{pow-suc, one-le-pow, pow-le-pow_right}
use es_node.Prelude.{
  ℕ, zero, suc, ◌+◌, ◌-◌, ◌*◌, ◌/◌, ◌%◌, ◌^◌, ◌≤◌, ◌<◌, bit_and, ◌≡◌, refl, ap, sym, subst,
  sub64_fits, ◌≢◌, ◌↔◌, Bool-cases, Bool, true, false, arith, ◌==◌, if◌then◌else◌, inl, inr, ◌-64◌,
}
use es_node.Outcome.{Outcome, ok, panic}

-- `v - 1` is computed on a `uint64`.
unfoldable pub is_pow2n : ℕ → Bool
is_pow2n v = if v == 0 then false else bit_and v (v -64 1) == 0

-- math/bits: the number of binary digits, 64 less the leading zeros
unfoldable pub bit_length_fuel : ℕ → ℕ → ℕ
bit_length_fuel zero v = 0
bit_length_fuel (suc f) v = let rest = bit_length_fuel f (v / 2) in if v == 0 then 0 else suc rest

unfoldable pub leading_zeros64 : ℕ → ℕ
leading_zeros64 v = 64 - bit_length_fuel 64 v

unfoldable pub check_and_get_bits : ℕ → Outcome ℕ
check_and_get_bits v = if is_pow2n v then ok (63 - leading_zeros64 v) else panic

bit_and_self_fuel : (n a : ℕ) → a ≤ n → bit_and a a ≡ a
bit_and_self_fuel n zero h = zero-bit_and 0
bit_and_self_fuel zero (suc a) h = absurd (omega arith)
bit_and_self_fuel (suc n) (suc a) h =
    omega (arith, bit_and_halves (suc a) (suc a), bit_and_self_fuel n (suc a / 2) (omega arith))

bit_and_self : (a : ℕ) → bit_and a a ≡ a
bit_and_self a = bit_and_self_fuel a a (omega arith)

-- The two cases of `v & (v - 1)`, for an even and for an odd number.
bit_and_pred_even : (u : ℕ) → 0 < u → bit_and (2 * u) (2 * u - 1) ≡ 2 * bit_and u (u - 1)
bit_and_pred_even u h =
    let e : 2 * u / 2 ≡ u = omega arith in
    let e' : (2 * u - 1) / 2 ≡ u - 1 = omega arith in
    rw (bit_and_halves (2 * u) (2 * u - 1), e, e') (omega arith)

bit_and_pred_odd : (u : ℕ) → bit_and (2 * u + 1) (2 * u) ≡ 2 * u
bit_and_pred_odd u =
    let e : (2 * u + 1) / 2 ≡ u = omega arith in
    let e' : 2 * u / 2 ≡ u = omega arith in
    rw (bit_and_halves (2 * u + 1) (2 * u), e, e') (omega (arith, bit_and_self u))

abbrev pub IsPow2 : ℕ → Type 0
IsPow2 v = (n : ℕ) × (v ≡ 2 ^ n)

pow2-bit_and : (n : ℕ) → bit_and (2 ^ n) (2 ^ n - 1) ≡ 0
pow2-bit_and zero = refl
pow2-bit_and (suc n) =
    let e : 2 ^ suc n ≡ 2 * 2 ^ n = omega (arith, pow-suc 2 n) in
    rw e (omega (arith, bit_and_pred_even (2 ^ n) (one-le-pow n 2 (omega arith)), pow2-bit_and n))

even-bit_and : (v : ℕ) → v % 2 ≡ 0 → 0 < v → bit_and v (v - 1) ≡ 0 → bit_and (v / 2) (v / 2 - 1) ≡ 0
even-bit_and v z p e =
    let d : v ≡ 2 * (v / 2) = omega arith in
    let e' : bit_and (2 * (v / 2)) (2 * (v / 2) - 1) ≡ 0 = subst (λ t. bit_and t (t - 1) ≡ 0) d e in
    omega (arith, bit_and_pred_even (v / 2) (omega arith))

odd-bit_and : (v : ℕ) → v % 2 ≢ 0 → bit_and v (v - 1) ≡ 0 → v ≡ 1
odd-bit_and v z e =
    let d : v ≡ 2 * (v / 2) + 1 = omega arith in
    let d' : v - 1 ≡ 2 * (v / 2) = omega arith in
    let e' : bit_and (2 * (v / 2) + 1) (v - 1) ≡ 0 = subst (λ t. bit_and t (v - 1) ≡ 0) d e in
    let e'' : bit_and (2 * (v / 2) + 1) (2 * (v / 2)) ≡ 0 =
      subst (λ t. bit_and (2 * (v / 2) + 1) t ≡ 0) d' e' in
    omega (arith, bit_and_pred_odd (v / 2))

bit_and-IsPow2 : (n v : ℕ) → v ≤ n → 0 < v → bit_and v (v - 1) ≡ 0 → IsPow2 v
bit_and-IsPow2 zero v h p e = absurd (omega arith)
bit_and-IsPow2 (suc n) v h p e = elim (Bool-cases (v % 2 == 0)) [
  | inl z ↦
      let even : v % 2 ≡ 0 = ground arith in
      let (k, q) = bit_and-IsPow2 n (v / 2) (omega arith) (omega arith) (even-bit_and v even p e) in
      (suc k, omega (arith, pow-suc 2 k))
  | inr z ↦ (0, odd-bit_and v (λ q. ground arith) e)
]

pub pow2_lt : (n k : ℕ) → n < k → 2 ^ n < 2 ^ k
pow2_lt n k h =
    let mono : 2 ^ suc n ≤ 2 ^ k = pow-le-pow_right {n = 2} (omega arith) h in
    omega (arith, pow-suc 2 n, one-le-pow n 2 (omega arith))

-- For a `uint64`, `isPow2n` holds exactly of the powers of two.
pub is_pow2n_iff : (v : ℕ) → v < 2 ^ 64 → (is_pow2n v ≡ true) ↔ IsPow2 v
unfolding is_pow2n
is_pow2n_iff v h = ((λ t. bit_and-IsPow2 v v (omega arith) (ground arith) (test t)), back)
  where
    test : (if v == 0 then false else bit_and v (v -64 1) == 0) ≡ true → bit_and v (v - 1) ≡ 0
    test t = elim (Bool-cases (v == 0)) [
      | inl z ↦ absurd (ground (arith, rw z at t))
      | inr z ↦ ground (arith, sub64_fits v 1, rw z at t)
    ]

    back : IsPow2 v → (if v == 0 then false else bit_and v (v -64 1) == 0) ≡ true
    back (n, q) =
        let p : 0 < v = omega (arith, one-le-pow n 2 (omega arith)) in
        let e : bit_and v (v - 1) ≡ 0 =
          subst (λ t. bit_and t (t - 1) ≡ 0) (sym q) (pow2-bit_and n) in
        rw (sub64_fits v 1 p h) (ground arith)

bit_length-pow2 : (n f : ℕ) → n < f → bit_length_fuel f (2 ^ n) ≡ n + 1
unfolding bit_length_fuel
bit_length-pow2 n zero h = elim h [ ]
bit_length-pow2 zero (suc zero) h = refl
bit_length-pow2 zero (suc (suc f)) h = refl
bit_length-pow2 (suc n) (suc f) h =
    let p : 2 ^ suc n ≡ 2 * 2 ^ n = omega (arith, pow-suc 2 n) in
    let half : 2 ^ suc n / 2 ≡ 2 ^ n = omega arith in
    let pos = one-le-pow n 2 (omega arith) in
    rw half (ground (arith, bit_length-pow2 n f (omega arith)))

-- On a power of two that fits a `uint64` the bits are the exponent.
pub check_and_get_bits-pow : (n : ℕ) → n < 64 → check_and_get_bits (2 ^ n) ≡ ok n
unfolding check_and_get_bits
check_and_get_bits-pow n h =
    rw ((is_pow2n_iff (2 ^ n) (pow2_lt n 64 h)).1 (n, refl))
      (ap ok (omega (arith, leading_zeros64_lem)))
  where
    leading_zeros64_lem : leading_zeros64 (2 ^ n) ≡ 63 - n
    leading_zeros64_lem = unfold leading_zeros64 in omega (arith, bit_length-pow2 n 64 h)
