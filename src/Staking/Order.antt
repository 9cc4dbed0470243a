-- ===== src/Staking/Order.antt =====
-- `sort` and `dedup` of the standard library on keys of validators, which are lists of bytes.
use truth_seeker.Common.{
  ◌≡◌, refl, Bool, true, false, List, [], ◌∷◌, ◌==◌, nat_eq, list_eq, list_beq_iff, ltb, ◌&&◌, ◌||◌,
  contains, if◌then◌else◌, arith, All, Bool-cases, inl, inr,
}
use truth_seeker.Sdk.Types.{Bytes}

-- `<=` on vectors, lexicographic
abbrev pub bytes_leb : Bytes → Bytes → Bool
bytes_leb [] ys = true
bytes_leb (x ∷ xs) [] = false
bytes_leb (x ∷ xs) (y ∷ ys) = ltb x y || (x == y && bytes_leb xs ys)

unfoldable pub insert_sorted : Bytes → List Bytes → List Bytes
insert_sorted x [] = x ∷ []
insert_sorted x (y ∷ ys) =
    let rest = insert_sorted x ys in if bytes_leb x y then x ∷ y ∷ ys else y ∷ rest

unfoldable pub sort : List Bytes → List Bytes
sort [] = []
sort (x ∷ xs) = insert_sorted x (sort xs)

abbrev pub starts_with : List Bytes → Bytes → Bool
starts_with [] x = false
starts_with (y ∷ ys) x = x == y

-- `dedup`: of equal neighbours one stays.
unfoldable pub dedup : List Bytes → List Bytes
dedup [] = []
dedup (x ∷ xs) = let rest = dedup xs in if starts_with xs x then rest else x ∷ rest

pub bytes_leb_total : (xs ys : Bytes) → bytes_leb xs ys ≡ false → bytes_leb ys xs ≡ true
bytes_leb_total [] ys h = ground arith
bytes_leb_total (x ∷ xs) [] h = ground arith
bytes_leb_total (x ∷ xs) (y ∷ ys) h = ground (arith, bytes_leb_total xs ys)

pub bytes_leb_antisym : (xs ys : Bytes) → bytes_leb xs ys ≡ true → bytes_leb ys xs ≡ true → xs ≡ ys
bytes_leb_antisym [] [] h k = refl
bytes_leb_antisym [] (y ∷ ys) h k = ground arith
bytes_leb_antisym (x ∷ xs) [] h k = ground arith
bytes_leb_antisym (x ∷ xs) (y ∷ ys) h k = ground (arith, bytes_leb_antisym xs ys)

pub bytes_leb_trans :
    (xs ys zs : Bytes) → bytes_leb xs ys ≡ true → bytes_leb ys zs ≡ true → bytes_leb xs zs ≡ true
bytes_leb_trans [] ys zs h k = refl
bytes_leb_trans (x ∷ xs) [] zs h k = ground arith
bytes_leb_trans (x ∷ xs) (y ∷ ys) [] h k = ground arith
bytes_leb_trans (x ∷ xs) (y ∷ ys) (z ∷ zs) h k = ground (arith, bytes_leb_trans xs ys zs)

-- Each element is at most every later one.
abbrev pub IsSorted : List Bytes → Type 0
IsSorted [] = Unit
IsSorted (x ∷ xs) = All (λ y. bytes_leb x y ≡ true) xs × IsSorted xs

abbrev pub Distinct : List Bytes → Type 0
Distinct [] = Unit
Distinct (x ∷ xs) = (contains xs x ≡ false) × Distinct xs

-- What holds of all holds of a later element.
pub All-trans :
    (x y : Bytes) (ys : List Bytes)
    → bytes_leb x y ≡ true
    → All (λ z. bytes_leb y z ≡ true) ys
    → All (λ z. bytes_leb x z ≡ true) ys
All-trans x y [] h k = tt
All-trans x y (z ∷ zs) h (k, ks) = (bytes_leb_trans x y z h k, All-trans x y zs h ks)

All-insert_sorted :
    (w x : Bytes) (ys : List Bytes)
    → bytes_leb w x ≡ true
    → All (λ z. bytes_leb w z ≡ true) ys
    → All (λ z. bytes_leb w z ≡ true) (insert_sorted x ys)
unfolding insert_sorted
All-insert_sorted w x [] h k = (h, tt)
All-insert_sorted w x (y ∷ ys) h (k, ks) = elim (Bool-cases (bytes_leb x y)) [
  | inl before ↦ rw before (h, (k, ks))
  | inr after ↦ rw after (k, All-insert_sorted w x ys h ks)
]

insert_sorted-IsSorted : (x : Bytes) (ys : List Bytes) → IsSorted ys → IsSorted (insert_sorted x ys)
unfolding insert_sorted
insert_sorted-IsSorted x [] h = (tt, tt)
insert_sorted-IsSorted x (y ∷ ys) (h, hs) = elim (Bool-cases (bytes_leb x y)) [
  | inl before ↦ rw before ((before, All-trans x y ys before h), (h, hs))
  | inr after ↦
      rw after
        (All-insert_sorted y x ys (bytes_leb_total x y after) h, insert_sorted-IsSorted x ys hs)
]

pub sort-IsSorted : (xs : List Bytes) → IsSorted (sort xs)
unfolding sort
sort-IsSorted [] = tt
sort-IsSorted (x ∷ xs) = insert_sorted-IsSorted x (sort xs) (sort-IsSorted xs)

pub contains-insert_sorted :
    (v x : Bytes) (ys : List Bytes) → contains (insert_sorted x ys) v ≡ (x == v || contains ys v)
unfolding insert_sorted
contains-insert_sorted v x [] = refl
contains-insert_sorted v x (y ∷ ys) = ground (arith, contains-insert_sorted v x ys)

pub contains-sort : (v : Bytes) (xs : List Bytes) → contains (sort xs) v ≡ contains xs v
unfolding sort
contains-sort v [] = refl
contains-sort v (x ∷ xs) = ground (arith, contains-insert_sorted v x (sort xs), contains-sort v xs)

pub contains-dedup : (v : Bytes) (xs : List Bytes) → contains (dedup xs) v ≡ contains xs v
unfolding dedup
contains-dedup v [] = refl
contains-dedup v (x ∷ []) = refl
contains-dedup v (x ∷ y ∷ ys) =
    ground (arith, list_beq_iff x y, list_beq_iff x v, list_beq_iff y v, contains-dedup v (y ∷ ys))

-- An element that is less than the head is in no later place.
not_contained :
    (x y : Bytes) (ys : List Bytes)
    → bytes_leb x y ≡ true
    → (x == y) ≡ false
    → All (λ z. bytes_leb y z ≡ true) ys
    → contains ys x ≡ false
not_contained x y [] h k hs = refl
not_contained x y (z ∷ zs) h k (l, ls) =
    ground (
      arith,
      list_beq_iff x y,
      list_beq_iff z x,
      bytes_leb_antisym x y,
      not_contained x y zs h k ls,
    )

pub dedup-Distinct : (xs : List Bytes) → IsSorted xs → Distinct (dedup xs)
unfolding dedup
dedup-Distinct [] h = tt
dedup-Distinct (x ∷ []) h = (refl, tt)
dedup-Distinct (x ∷ y ∷ ys) ((l, ls), (h, hs)) = elim (Bool-cases (x == y)) [
  | inl same ↦ rw same (dedup-Distinct (y ∷ ys) (h, hs))
  | inr new ↦
      let gone : contains (y ∷ ys) x ≡ false =
        ground (arith, list_beq_iff x y, list_beq_iff y x, not_contained x y ys l new h) in
      rw new (ground (arith, contains-dedup x (y ∷ ys)), dedup-Distinct (y ∷ ys) (h, hs))
]
