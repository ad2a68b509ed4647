-- ===== src/Prelude/Words.antt =====
-- Go's `uint64` arithmetic: every result is taken modulo 2 ^ 64.
use Prim.Native.Nat.{ℕ, ◌+◌, ◌-◌, ◌*◌, ◌%◌, ◌^◌, ◌≤◌, ◌<◌}
use mathlib.Core.Path.{◌≡◌}
use native.Mathlib.Omega.{arith}

abbrev pub u64_mod : ℕ
u64_mod = 2 ^ 64

abbrev pub u64 : ℕ → ℕ
u64 n = n % 2 ^ 64

infixl 65 ◌+64◌ ◌-64◌
infixl 70 ◌*64◌ ◌<<64◌
abbrev pub ◌+64◌ : ℕ → ℕ → ℕ
a +64 b = u64 (a + b)

abbrev pub ◌-64◌ : ℕ → ℕ → ℕ
a -64 b = u64 (a + u64_mod - b)

abbrev pub ◌*64◌ : ℕ → ℕ → ℕ
a *64 b = u64 (a * b)

abbrev pub ◌<<64◌ : ℕ → ℕ → ℕ
a <<64 k = u64 (a * 2 ^ k)

-- A value that fits is not wrapped.
pub u64_fits : (n : ℕ) → n < 2 ^ 64 → u64 n ≡ n
u64_fits n h = omega arith

pub sub64_fits : (a b : ℕ) → b ≤ a → a < 2 ^ 64 → a -64 b ≡ a - b
sub64_fits a b h k = omega arith
