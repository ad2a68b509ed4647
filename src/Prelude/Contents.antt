-- ===== src/Prelude/Contents.antt =====
-- The bytes of a file as a function of the position, with reads and writes of byte strings.
use Prim.Native.Nat.{ℕ, zero, suc, ◌+◌, ◌-◌, ◌≤◌, ◌<◌}
use mathlib.Core.Path.{◌≡◌, refl, ap, ap₂}
use mathlib.Core.Logic.{◌⊎◌, inl, inr}
use mathlib.Core.Bool.{◌&&◌}
use mathlib.Core.List.{List, [], ◌∷◌, ◌++◌}
use native.Mathlib.Omega.{arith}
use es_node.Prelude.Tests.{ltb, leb, if◌then◌else◌}
use es_node.Prelude.Lists.{length, get_or}

abbrev pub Content : Type 0
Content = ℕ → ℕ

-- The `n` bytes from `pos` on.
unfoldable pub slice : Content → ℕ → ℕ → List ℕ
slice c pos zero = []
slice c pos (suc n) = c pos ∷ slice c (suc pos) n

-- The content after the bytes `b` were written from `pos` on.
unfoldable pub overlay : Content → ℕ → List ℕ → Content
overlay c pos b p = if leb pos p && ltb p (pos + length b) then get_or b (p - pos) 0 else c p

pub length-slice : (c : Content) (pos n : ℕ) → length (slice c pos n) ≡ n
unfolding slice
length-slice c pos zero = refl
length-slice c pos (suc n) = ap suc (length-slice c (suc pos) n)

pub overlay_outside :
    (c : Content) (pos : ℕ) (b : List ℕ) (p : ℕ)
    → (p < pos) ⊎ (pos + length b ≤ p)
    → overlay c pos b p ≡ c p
unfolding overlay
overlay_outside c pos b p h = ground arith

pub overlay_inside :
    (c : Content) (pos : ℕ) (b : List ℕ) (p : ℕ)
    → pos ≤ p
    → p < pos + length b
    → overlay c pos b p ≡ get_or b (p - pos) 0
unfolding overlay
overlay_inside c pos b p h k = ground arith

-- Contents that agree on a range have the same bytes there.
pub slice_ext :
    (c d : Content) (pos n : ℕ)
    → ((p : ℕ) → pos ≤ p → p < pos + n → c p ≡ d p)
    → slice c pos n ≡ slice d pos n
unfolding slice
slice_ext c d pos zero h = refl
slice_ext c d pos (suc n) h =
    ap₂ ◌∷◌ (h pos (omega arith) (omega arith))
      (slice_ext c d (suc pos) n (λ p a b. h p (omega arith) (omega arith)))

pub slice-overlay_disjoint :
    (c : Content) (pos : ℕ) (b : List ℕ) (pos' n : ℕ)
    → (pos' + n ≤ pos) ⊎ (pos + length b ≤ pos')
    → slice (overlay c pos b) pos' n ≡ slice c pos' n
slice-overlay_disjoint c pos b pos' n h =
    slice_ext (overlay c pos b) c pos' n (λ p lo hi. overlay_outside c pos b p (apart p lo hi h))
  where
    apart :
        (p : ℕ)
        → pos' ≤ p
        → p < pos' + n
        → (pos' + n ≤ pos) ⊎ (pos + length b ≤ pos')
        → (p < pos) ⊎ (pos + length b ≤ p)
    apart p lo hi (inl e) = inl (omega arith)
    apart p lo hi (inr e) = inr (omega arith)

slice-get_or :
    (c : Content) (b : List ℕ) (pos : ℕ)
    → ((p : ℕ) → pos ≤ p → p < pos + length b → c p ≡ get_or b (p - pos) 0)
    → slice c pos (length b) ≡ b
unfolding slice
slice-get_or c [] pos h = refl
slice-get_or c (x ∷ b) pos h =
    ap₂ ◌∷◌ (h pos (omega arith) (omega arith) ⨾ ap (λ k. get_or (x ∷ b) k 0) (zero_gap pos)) (
      slice-get_or c b (suc pos)
        (λ p lo hi. h p (omega arith) (omega arith) ⨾ ap (λ k. get_or (x ∷ b) k 0) (gap p lo)))
  where
    infixl 30 ◌⨾◌
    ◌⨾◌ : {u v w : ℕ} → u ≡ v → v ≡ w → u ≡ w
    p ⨾ q = omega arith

    zero_gap : (n : ℕ) → n - n ≡ 0
    zero_gap n = omega arith

    gap : (p : ℕ) → suc pos ≤ p → p - pos ≡ suc (p - suc pos)
    gap p lo = omega arith

-- A write is read back.
pub slice-overlay_self :
    (c : Content) (pos : ℕ) (b : List ℕ) → slice (overlay c pos b) pos (length b) ≡ b
slice-overlay_self c pos b =
    slice-get_or (overlay c pos b) b pos (λ p lo hi. overlay_inside c pos b p lo hi)

pub slice-append :
    (c : Content) (pos m n : ℕ) → slice c pos (m + n) ≡ slice c pos m ++ slice c (pos + m) n
unfolding slice
slice-append c pos zero n =
    let e : 0 + n ≡ n = omega arith in let e' : pos + 0 ≡ pos = omega arith in rw (e, e')
slice-append c pos (suc m) n =
    let e : suc m + n ≡ suc (m + n) = omega arith in
    let e' : pos + suc m ≡ suc pos + m = omega arith in
    rw (e, e') (ap (λ t. c pos ∷ t) (slice-append c (suc pos) m n))
