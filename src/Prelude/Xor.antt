-- ===== src/Prelude/Xor.antt =====
-- `bit_xor` undoes itself, at every width.
use Prim.Native.Nat.{ℕ, zero, suc, ◌+◌, ◌/◌, ◌%◌, ◌≤◌, ◌<◌, bit_xor, differ}
use es_node.Prelude.Digits.{zero-bit_xor, bit_xor_halves}
use mathlib.Core.Path.{◌≡◌, refl}
use native.Mathlib.Omega.{arith}

-- On binary digits.
differ_lt : (x y : ℕ) → x < 2 → y < 2 → differ x y < 2
differ_lt zero y p q = q
differ_lt (suc zero) zero p q = omega arith
differ_lt (suc zero) (suc zero) p q = omega arith
differ_lt (suc zero) (suc (suc y)) p q = absurd (omega arith)
differ_lt (suc (suc x)) y p q = absurd (omega arith)

differ_undo : (x y : ℕ) → x < 2 → y < 2 → differ x (differ x y) ≡ y
differ_undo zero y p q = refl
differ_undo (suc zero) zero p q = refl
differ_undo (suc zero) (suc zero) p q = refl
differ_undo (suc zero) (suc (suc y)) p q = absurd (omega arith)
differ_undo (suc (suc x)) y p q = absurd (omega arith)

-- The two parts of `bit_xor a b`.
half-bit_xor : (a b : ℕ) → bit_xor a b / 2 ≡ bit_xor (a / 2) (b / 2)
half-bit_xor a b =
    omega (arith, bit_xor_halves a b, differ_lt (a % 2) (b % 2) (omega arith) (omega arith))

parity-bit_xor : (a b : ℕ) → bit_xor a b % 2 ≡ differ (a % 2) (b % 2)
parity-bit_xor a b =
    omega (arith, bit_xor_halves a b, differ_lt (a % 2) (b % 2) (omega arith) (omega arith))

bit_xor_undo_fuel : (n a b : ℕ) → a ≤ n → bit_xor a (bit_xor a b) ≡ b
bit_xor_undo_fuel n zero b h = omega (arith, zero-bit_xor b, zero-bit_xor (bit_xor 0 b))
bit_xor_undo_fuel zero (suc a) b h = absurd (omega arith)
bit_xor_undo_fuel (suc n) (suc a) b h =
    rw
      (bit_xor_halves (suc a) (bit_xor (suc a) b), half-bit_xor (suc a) b, parity-bit_xor (suc a) b)
      (omega (
        arith,
        bit_xor_undo_fuel n (suc a / 2) (b / 2) (omega arith),
        differ_undo (suc a % 2) (b % 2) (omega arith) (omega arith),
      ))

-- a ^ (a ^ b) = b
pub bit_xor_undo : (a b : ℕ) → bit_xor a (bit_xor a b) ≡ b
bit_xor_undo a b = bit_xor_undo_fuel a a b (omega arith)

differ_comm : (x y : ℕ) → differ x y ≡ differ y x
differ_comm zero zero = refl
differ_comm zero (suc y) = refl
differ_comm (suc x) zero = refl
differ_comm (suc x) (suc y) = differ_comm x y

bit_xor_comm_fuel : (n a b : ℕ) → a ≤ n → b ≤ n → bit_xor a b ≡ bit_xor b a
bit_xor_comm_fuel zero a b h k =
    let e : a ≡ 0 = omega arith in let e' : b ≡ 0 = omega arith in rw (e, e')
bit_xor_comm_fuel (suc n) a b h k = omega (
  arith,
  bit_xor_halves a b,
  bit_xor_halves b a,
  bit_xor_comm_fuel n (a / 2) (b / 2) (omega arith) (omega arith),
  differ_comm (a % 2) (b % 2),
)

pub bit_xor_comm : (a b : ℕ) → bit_xor a b ≡ bit_xor b a
bit_xor_comm a b = bit_xor_comm_fuel (a + b) a b (omega arith) (omega arith)

-- (a ^ b) ^ b = a
pub bit_xor_undo_right : (a b : ℕ) → bit_xor (bit_xor a b) b ≡ a
bit_xor_undo_right a b = rw (bit_xor_comm (bit_xor a b) b, bit_xor_comm a b) (bit_xor_undo b a)

pub bit_xor_self : (a : ℕ) → bit_xor a a ≡ 0
bit_xor_self a =
    let e : bit_xor a 0 ≡ a = omega (arith, bit_xor_comm a 0, zero-bit_xor a) in
    rw e at (bit_xor_undo a 0)
