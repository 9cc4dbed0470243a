-- ===== src/Common/Maps.antt =====
-- `HashMap` and `BTreeMap`: association lists in which a key is written at its first place.
use mathlib.Core.Path.{◌≡◌, refl}
use mathlib.Core.Bool.{Bool}
use Prim.Native.Nat.{◌≤◌, ◌<◌}
use mathlib.Core.List.{List, [], ◌∷◌}
use mathlib.Core.Option.{Option, none, some}
use native.Mathlib.Omega.{arith}
use truth_seeker.Common.Lists.{length}
use truth_seeker.Common.Tests.{Eq, ◌==◌, if◌then◌else◌, is_some}

abbrev pub Map : Type 0 → Type 0 → Type 0
Map K V = List (K × V)

module _ {K V : Type 0} ⦃e : Eq K⦄ where
  unfoldable pub get : Map K V → K → Option V
  get [] k = none
  get ((j, v) ∷ m) k = if j == k then some v else get m k

  unfoldable pub insert : Map K V → K → V → Map K V
  insert [] k v = (k, v) ∷ []
  insert ((j, w) ∷ m) k v = if j == k then (k, v) ∷ m else (j, w) ∷ insert m k v

  unfoldable pub remove : Map K V → K → Map K V
  remove [] k = []
  remove ((j, w) ∷ m) k = let rest = remove m k in if j == k then rest else (j, w) ∷ rest

  abbrev pub contains_key : Map K V → K → Bool
  contains_key m k = is_some (get m k)

  pub get-insert :
      (m : Map K V) (k j : K) (v : V) → get (insert m k v) j ≡ (if k == j then some v else get m j)
  unfolding get insert
  get-insert [] k j v = refl
  get-insert ((i, w) ∷ m) k j v =
      ground (arith, e.beq_iff k j, e.beq_iff i k, e.beq_iff i j, get-insert m k j v)

  pub get-remove : (m : Map K V) (k j : K) → get (remove m k) j ≡ (if k == j then none else get m j)
  unfolding get remove
  get-remove [] k j = ground arith
  get-remove ((i, w) ∷ m) k j =
      ground (arith, e.beq_iff k j, e.beq_iff i k, e.beq_iff i j, get-remove m k j)

module _ {K V : Type 0} ⦃e : Eq K⦄ where
  pub length-remove : (m : Map K V) (k : K) → length (remove m k) ≤ length m
  unfolding remove
  length-remove [] k = omega arith
  length-remove ((j, w) ∷ m) k = ground (arith, length-remove m k)

  pub length-remove_known :
      (m : Map K V) (k : K) (v : V) → get m k ≡ some v → length (remove m k) < length m
  unfolding get remove
  length-remove_known [] k v h = ground arith
  length-remove_known ((j, w) ∷ m) k v h =
      ground (arith, length-remove m k, length-remove_known m k v)

  pub length-insert_known :
      (m : Map K V) (k : K) (v w : V) → get m k ≡ some v → length (insert m k w) ≡ length m
  unfolding get insert
  length-insert_known [] k v w h = ground arith
  length-insert_known ((j, u) ∷ m) k v w h = ground (arith, length-insert_known m k v w)

pub get-empty : {K V : Type 0} ⦃e : Eq K⦄ (k : K) → get {V = V} [] k ≡ none
unfolding get
get-empty k = refl

pub ruleset map_laws = (get-empty, get-insert, get-remove)
