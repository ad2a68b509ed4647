-- ===== src/Prelude/Quotients.antt =====
-- Quotients and remainders of native numbers by a variable.
use native.Mathlib.Decide.{dec_lt}
use native.Mathlib.Nat.{div-eq_of_lt, mul-add-div_right, div-add-mod', mod-lt, mul-le-mul_right}
use Prim.Native.Nat.{ℕ, ◌+◌, ◌*◌, ◌/◌, ◌%◌, ◌≤◌, ◌<◌}
use mathlib.Core.Path.{◌≡◌, ap, ◌∙◌}
use native.Mathlib.Omega.{arith}

pub quotient : (e i k : ℕ) → k < e → (i * e + k) / e ≡ i
quotient e i k lt =
    mul-add-div_right (omega arith) i k ∙ ap (λ n. i + n) (div-eq_of_lt lt) ∙ omega arith

pub remainder : (e i k : ℕ) → k < e → (i * e + k) % e ≡ k
remainder e i k lt =
    let whole : (i * e + k) / e * e + (i * e + k) % e ≡ i * e + k = div-add-mod' (i * e + k) e in
    let whole' = rw (quotient e i k lt) at whole in omega (arith, whole')

pub quotient_le : (e a b : ℕ) → 0 < e → a ≤ b → a / e ≤ b / e
quotient_le e a b p le = elim (dec_lt (b / e) (a / e)) [
  | yes less ↦
      let product : (b / e + 1) * e ≤ a / e * e = mul-le-mul_right e (omega arith) in
      absurd (omega (arith, product, div-add-mod' a e, div-add-mod' b e, mod-lt b p))
  | no more ↦ omega arith
]

pub quotient_lt : (e b n : ℕ) → 0 < e → b < n * e → b / e < n
quotient_lt e b n p lt = elim (dec_lt (b / e) n) [
  | yes less ↦ less
  | no more ↦
      let product : n * e ≤ b / e * e = mul-le-mul_right e (omega arith) in
      absurd (omega (arith, product, div-add-mod' b e))
]
