-- ===== src/Common/TextOrder.antt =====
-- `<=` on `String`: lexicographic, as the native `compare` gives it.
use Prim.Native.Nat.{ℕ, Ordering, compare as compare_ℕ}
use Prim.Native.Char.{code}
use Prim.Native.String.{String, compare}
use Prim.Native.String.compare.{nil-nil, nil-cons, cons-nil, cons-cons}
use mathlib.Core.Path.{◌≡◌, refl}
use mathlib.Core.Bool.{Bool, true, false}
use native.Mathlib.Omega.{arith}
use text.Mathlib.TextEquality.{path_by_compare}

abbrev pub str_leb : String → String → Bool
str_leb s t = elim (compare s t) [ Ordering.gt ↦ false | _ ↦ true ]

abbrev flip : Ordering → Ordering
flip Ordering.lt = Ordering.gt
flip Ordering.eq = Ordering.eq
flip Ordering.gt = Ordering.lt

compare_ℕ_swap : (m n : ℕ) → compare_ℕ n m ≡ flip (compare_ℕ m n)
compare_ℕ_swap m n = ground arith

compare_swap : (s t : String) → compare t s ≡ flip (compare s t)
compare_swap String.[] String.[] = rw nil-nil refl
compare_swap String.[] (String.◌∷◌ d t) = rw (nil-cons d t, cons-nil d t) refl
compare_swap (String.◌∷◌ c s) String.[] = rw (nil-cons c s, cons-nil c s) refl
compare_swap (String.◌∷◌ c s) (String.◌∷◌ d t) =
    rw (cons-cons c d s t, cons-cons d c t s)
      (ground (arith, compare_ℕ_swap (code c) (code d), compare_swap s t))

-- The order is total and antisymmetric.
pub str_leb_total : (s t : String) → str_leb s t ≡ false → str_leb t s ≡ true
str_leb_total s t h = ground (arith, compare_swap s t)

pub str_leb_antisym : (s t : String) → str_leb s t ≡ true → str_leb t s ≡ true → s ≡ t
str_leb_antisym s t h k = path_by_compare s t (ground (arith, compare_swap s t))
