-- ===== src/Common/Results.antt =====
-- `Result<A, E>` of the source, with `?` as the bind of a `do` block.
use mathlib.Core.Path.{◌≡◌, refl}
use mathlib.Core.Bool.{Bool, true, false}
use mathlib.Core.Option.{Option, none, some}
use mathlib.Core.Logic.{◌⊎◌, inl, inr}

pub data Result (E A : Type 0) : Type 0 where
  ok : A → Result E A
  err : E → Result E A

infixl 5 ◌>>=◌ ◌>>◌
abbrev pub ◌>>=◌ : {E A B : Type 0} → Result E A → (A → Result E B) → Result E B
err e >>= k = err e
ok x >>= k = k x

abbrev pub ◌>>◌ : {E B : Type 0} → Result E Unit → Result E B → Result E B
r >> next = r >>= λ _. next

-- `if bad { return Err(e) }`
abbrev pub bail_if : {E : Type 0} → Bool → E → Result E Unit
bail_if true e = err e
bail_if false e = ok tt

-- `Option::ok_or`
abbrev pub ok_or : {E A : Type 0} → Option A → E → Result E A
ok_or none e = err e
ok_or (some a) e = ok a

abbrev pub is_ok : {E A : Type 0} → Result E A → Bool
is_ok (ok _) = true
is_ok (err _) = false

-- A chain that succeeds has succeeded in its first part and in the rest.
pub >>=-eq-ok :
    {E A B : Type 0} (r : Result E A) (k : A → Result E B) {y : B}
    → (r >>= k) ≡ ok y
    → (x : A) × (r ≡ ok x) × (k x ≡ ok y)
>>=-eq-ok (err e) k done = cc
>>=-eq-ok (ok x) k done = (x, refl, done)

pub Result-cases :
    {E A : Type 0} (r : Result E A) → ((a : A) × (r ≡ ok a)) ⊎ ((e : E) × (r ≡ err e))
Result-cases (ok a) = inl (a, refl)
Result-cases (err e) = inr (e, refl)
