-- ===== src/Common/Words.antt =====
-- Machine integers: a release build wraps round, so an operation is the one on ℕ, modulo 2^128.
use Prim.Native.Nat.{ℕ, ◌+◌, ◌-◌, ◌*◌, ◌%◌, ◌^◌, ◌<◌, ◌≤◌}
use mathlib.Core.Path.{◌≡◌}
use native.Mathlib.Omega.{arith}
use native.Mathlib.Nat.{mod-eq_of_lt}

abbrev pub u128_mod : ℕ
u128_mod = 2 ^ 128

unfoldable pub add_u128 : ℕ → ℕ → ℕ
add_u128 a b = (a + b) % u128_mod

unfoldable pub sub_u128 : ℕ → ℕ → ℕ
sub_u128 a b = (a + u128_mod - b) % u128_mod

unfoldable pub mul_u128 : ℕ → ℕ → ℕ
mul_u128 a b = (a * b) % u128_mod

pub add_u128_lem : (a b : ℕ) → a + b < u128_mod → add_u128 a b ≡ a + b
unfolding add_u128
add_u128_lem a b h = omega arith

pub sub_u128_lem : (a b : ℕ) → a < u128_mod → b ≤ a → sub_u128 a b ≡ a - b
unfolding sub_u128
sub_u128_lem a b h k = omega arith

pub mul_u128_lem : (a b : ℕ) → a * b < u128_mod → mul_u128 a b ≡ a * b
unfolding mul_u128
mul_u128_lem a b h = mod-eq_of_lt h
