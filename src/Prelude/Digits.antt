-- ===== src/Prelude/Digits.antt =====
-- Bitwise operations one binary digit at a time, from the loop over digits that defines them.
use Prim.Native.Nat.{
  ℕ, zero, suc, ◌+◌, ◌-◌, ◌*◌, ◌/◌, ◌%◌, ◌≤◌, min, bit_and, bit_xor, bitwise, digits, differ,
  bit_and-bitwise, bit_xor-bitwise,
}
use mathlib.Core.Path.{◌≡◌, refl, ap, sym, ◌∙◌}
use native.Mathlib.Omega.{arith}

module _ (last : ℕ → ℕ) (f : ℕ → ℕ → ℕ) where
  -- A loop that may look at as many digits as the number is large has seen all of them.
  digits-suc : (n a b : ℕ) → a ≤ n → digits last f (suc n) a b ≡ digits last f n a b
  digits-suc zero (suc a) b h = absurd (omega arith)
  digits-suc zero zero b h = refl
  digits-suc (suc n) zero b h = refl
  digits-suc (suc n) (suc a) b h =
      ap (λ t. t * 2 + f (suc a % 2) (b % 2)) (digits-suc n (suc a / 2) (b / 2) (omega arith))

  digits_enough : (k a b : ℕ) → digits last f (k + a) a b ≡ bitwise last f a b
  digits_enough zero a b = ap (λ n. digits last f n a b) (omega arith)
  digits_enough (suc k) a b =
      let shift : suc k + a ≡ suc (k + a) = omega arith in
      ap (λ n. digits last f n a b) shift
      ∙ digits-suc (k + a) a b (omega arith)
      ∙ digits_enough k a b

  bitwise_halves :
      (a b : ℕ)
      → bitwise last f (suc a) b ≡ bitwise last f (suc a / 2) (b / 2) * 2 + f (suc a % 2) (b % 2)
  bitwise_halves a b =
      let half = suc a / 2 in
      let split : a ≡ (a - half) + half = omega arith in
      ap (λ t. t * 2 + f (suc a % 2) (b % 2))
        (ap (λ n. digits last f n half (b / 2)) split ∙ digits_enough (a - half) half (b / 2))

pub zero-bit_and : (b : ℕ) → bit_and 0 b ≡ 0
zero-bit_and = bit_and-bitwise 0

pub zero-bit_xor : (b : ℕ) → bit_xor 0 b ≡ b
zero-bit_xor = bit_xor-bitwise 0

-- The lowest binary digit is split off.
pub bit_and_halves : (a b : ℕ) → bit_and a b ≡ bit_and (a / 2) (b / 2) * 2 + min (a % 2) (b % 2)
bit_and_halves (suc a) b =
    bit_and-bitwise (suc a) b
    ∙ bitwise_halves (λ _. zero) min a b
    ∙ ap (λ t. t * 2 + min (suc a % 2) (b % 2)) (sym (bit_and-bitwise (suc a / 2) (b / 2)))
bit_and_halves zero b = let none = zero-bit_and b in let none' = zero-bit_and (b / 2) in omega arith

pub bit_xor_halves : (a b : ℕ) → bit_xor a b ≡ bit_xor (a / 2) (b / 2) * 2 + differ (a % 2) (b % 2)
bit_xor_halves (suc a) b =
    bit_xor-bitwise (suc a) b
    ∙ bitwise_halves (λ n. n) differ a b
    ∙ ap (λ t. t * 2 + differ (suc a % 2) (b % 2)) (sym (bit_xor-bitwise (suc a / 2) (b / 2)))
bit_xor_halves zero b = let same = zero-bit_xor b in let same' = zero-bit_xor (b / 2) in omega arith
