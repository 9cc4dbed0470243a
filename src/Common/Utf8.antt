-- ===== src/Common/Utf8.antt =====
-- `std::str::from_utf8`: the text that bytes encode, if they encode one.
use Prim.Native.Nat.{ℕ, zero, suc, ◌+◌, ◌-◌, ◌*◌, Ordering, compare}
use Prim.Native.Char.{Char, char, IsScalar}
use Prim.Native.String.{String}
use mathlib.Core.Path.{◌≡◌, refl}
use mathlib.Core.Bool.{true, false, ◌&&◌}
use mathlib.Core.List.{List, [], ◌∷◌}
use mathlib.Core.Option
use mathlib.Core.Option.{Option, none, some}
use truth_seeker.Common.Tests.{ltb, leb, if◌then◌else◌}

pub IsScalar-low : (n : ℕ) → compare n 0xD800 ≡ Ordering.lt → IsScalar n
IsScalar-low n low = rw low tt

pub IsScalar-high :
    (n : ℕ)
    → compare n 0xD800 ≡ Ordering.gt
    → compare 0xDFFF n ≡ Ordering.lt
    → compare n 0x110000 ≡ Ordering.lt
    → IsScalar n
IsScalar-high n above past below = rw (above, past, below) tt

-- `char::from_u32`
abbrev char_above :
    (n : ℕ)
    → compare n 0xD800 ≡ Ordering.gt
    → (a b : Ordering) → compare 0xDFFF n ≡ a
    → compare n 0x110000 ≡ b
    → Option Char
char_above n above Ordering.lt Ordering.lt p q = some (char n (IsScalar-high n above p q))
char_above n above _ _ p q = none

abbrev char_at_order : (n : ℕ) (o : Ordering) → compare n 0xD800 ≡ o → Option Char
char_at_order n Ordering.lt p = some (char n (IsScalar-low n p))
char_at_order n Ordering.eq p = none
char_at_order n Ordering.gt p = char_above n p (compare 0xDFFF n) (compare n 0x110000) refl refl

unfoldable from_u32 : ℕ → Option Char
from_u32 n = char_at_order n (compare n 0xD800) refl

-- What a leading byte says: how many bytes follow, its own bits, and the least number that is
-- written in so many bytes.
abbrev lead : ℕ → Option (ℕ × ℕ × ℕ)
lead b =
    if ltb b 0x80
    then some (0, b, 0)
    else if ltb b 0xC0
    then none
    else if ltb b 0xE0
    then some (1, b - 0xC0, 0x80)
    else if ltb b 0xF0
    then some (2, b - 0xE0, 0x800)
    else if ltb b 0xF8
    then some (3, b - 0xF0, 0x10000)
    else none

-- the number that is complete, unless it is written too long
unfoldable complete : ℕ → ℕ → Option Char
complete n low = if ltb n low then none else from_u32 n

-- `missing` bytes of a character are still to come.
unfoldable decode : ℕ → ℕ → ℕ → List ℕ → Option String
decode zero n low [] = some ""
decode (suc missing) n low [] = none
decode zero n low (b ∷ bs) = elim (lead b) [
  | none ↦ none
  | some (zero, bits, least) ↦ elim (complete bits least) [
    | none ↦ none
    | some c ↦ Option.map (λ s. String.◌∷◌ c s) (decode zero 0 0 bs)
  ]
  | some (suc k, bits, least) ↦ decode (suc k) bits least bs
]
decode (suc missing) n low (b ∷ bs) = elim (leb 0x80 b && ltb b 0xC0) [
  | false ↦ none
  | true ↦ elim missing [
    | zero ↦ elim (complete (n * 64 + (b - 0x80)) low) [
      | none ↦ none
      | some c ↦ Option.map (λ s. String.◌∷◌ c s) (decode zero 0 0 bs)
    ]
    | suc k ↦ decode (suc k) (n * 64 + (b - 0x80)) low bs
  ]
]

unfoldable pub from_utf8 : List ℕ → Option String
unfolding decode complete from_u32
from_utf8 bytes = decode zero 0 0 bytes
