-- ===== src/Manager/Maps.antt =====
-- Go maps as lists of entries: look-up after insertion and removal.
use es_node.Prelude.{ℕ, ◌≡◌, ◌≢◌, refl, [], ◌∷◌, some, arith, ◌==◌, if◌then◌else◌}
use es_node.Manager.{Map, lookup, insert}

pub lookup-insert :
    {A : Type 0} (key other : ℕ) (value : A) (m : Map A)
    → lookup other (insert key value m) ≡ (if key == other then some value else lookup other m)
unfolding insert lookup
lookup-insert key other value [] = refl
lookup-insert key other value ((k, old) ∷ m) = ground (lookup-insert key other value m, arith)

pub lookup-insert_self :
    {A : Type 0} (key : ℕ) (value : A) (m : Map A) → lookup key (insert key value m) ≡ some value
lookup-insert_self key value m = ground (lookup-insert key key value m, arith)

pub lookup-insert_ne :
    {A : Type 0} (key other : ℕ) (value : A) (m : Map A)
    → key ≢ other
    → lookup other (insert key value m) ≡ lookup other m
lookup-insert_ne key other value m ne = ground (lookup-insert key other value m, arith)
