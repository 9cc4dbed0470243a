-- ===== src/Common/Sorted.antt =====
-- `BTreeSet` and `BTreeMap` whose order of iteration matters: lists in the order of the texts.
use mathlib.Core.Path.{◌≡◌, refl}
use mathlib.Core.Bool.{◌||◌}
use mathlib.Core.List.{List, [], ◌∷◌}
use Prim.Native.String.{String}
use native.Mathlib.Omega.{arith}
use truth_seeker.Common.Tests.{◌==◌, string_eq, if◌then◌else◌}
use truth_seeker.Common.Lists.{contains}
use truth_seeker.Common.Maps.{Map}
use truth_seeker.Common.TextOrder.{str_leb}

-- `BTreeSet::insert`
unfoldable pub add_to : String → List String → List String
add_to x [] = x ∷ []
add_to x (y ∷ ys) =
    let rest = add_to x ys in
    if x == y then y ∷ ys else if str_leb x y then x ∷ y ∷ ys else y ∷ rest

-- `BTreeSet::append` and `extend`
abbrev pub add_all : List String → List String → List String
add_all [] ys = ys
add_all (x ∷ xs) ys = add_to x (add_all xs ys)

-- `BTreeMap::insert`
unfoldable pub put : {V : Type 0} → Map String V → String → V → Map String V
put [] k v = (k, v) ∷ []
put ((j, w) ∷ m) k v =
    let rest = put m k v in
    if j == k then (j, v) ∷ m else if str_leb k j then (k, v) ∷ (j, w) ∷ m else (j, w) ∷ rest

-- `BTreeMap::extend`, and the map of a list of entries
abbrev pub put_all : {V : Type 0} → Map String V → Map String V → Map String V
put_all m [] = m
put_all m ((k, v) ∷ entries) = put_all (put m k v) entries

pub contains-add_to :
    (x h : String) (ys : List String) → contains (add_to x ys) h ≡ (x == h || contains ys h)
unfolding add_to
contains-add_to x h [] = ground arith
contains-add_to x h (y ∷ ys) = ground (
  arith,
  contains-add_to x h ys,
  string_eq.beq_iff x y,
  string_eq.beq_iff x h,
  string_eq.beq_iff y h,
)

pub contains-add_all :
    (xs ys : List String) (h : String)
    → contains (add_all xs ys) h ≡ (contains xs h || contains ys h)
contains-add_all [] ys h = refl
contains-add_all (x ∷ xs) ys h =
    ground
      (arith, contains-add_to x h (add_all xs ys), contains-add_all xs ys h, string_eq.beq_iff x h)
