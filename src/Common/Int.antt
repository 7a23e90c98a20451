-- ===== src/Common/Int.antt =====
-- Signed numbers: Go's `int` and `int64` where a value may be negative. A finite `float64` that the
-- program only compares is modelled by its place in the order of the finite floats, 0 at zero.
use Prim.Native.Nat.{ℕ}
use mathlib.Core.Path.{refl, ◌≡◌}
use mathlib.Core.Bool.{Bool, true, false}
use native.Mathlib.Omega.{arith}
use apekeeper.Common.Tests.{if◌then◌else◌, ltb, ◌==◌}

-- `negsuc n` is -(n + 1).
pub data ℤ : Type 0 where
  pos : ℕ → ℤ
  negsuc : ℕ → ℤ

abbrev pub ltz : ℤ → ℤ → Bool
ltz (pos a) (pos b) = ltb a b
ltz (pos a) (negsuc b) = false
ltz (negsuc a) (pos b) = true
ltz (negsuc a) (negsuc b) = ltb b a

abbrev pub eqz : ℤ → ℤ → Bool
eqz (pos a) (pos b) = a == b
eqz (pos a) (negsuc b) = false
eqz (negsuc a) (pos b) = false
eqz (negsuc a) (negsuc b) = a == b

abbrev pub is_pos : ℤ → Bool
is_pos z = ltz (pos 0) z

abbrev pub to_ℕ : ℤ → ℕ
to_ℕ (pos n) = n
to_ℕ (negsuc n) = 0

pub eqz_sound : (a b : ℤ) → eqz a b ≡ true → a ≡ b
eqz_sound a b h = ground arith

pub eqz_refl : (a : ℤ) → eqz a a ≡ true
eqz_refl a = ground arith

pub ltz_irrefl : (a : ℤ) → ltz a a ≡ false
ltz_irrefl a = ground arith

pub ltz_trans : (a b c : ℤ) → ltz a b ≡ true → ltz b c ≡ true → ltz a c ≡ true
ltz_trans a b c h k = ground arith

pub ltz_larger_left : (m a s : ℤ) → ltz m (if ltz a s then s else a) ≡ false → ltz m a ≡ false
ltz_larger_left (pos m) (pos a) (pos s) h = ground arith
ltz_larger_left (pos m) (pos a) (negsuc s) h = ground arith
ltz_larger_left (pos m) (negsuc a) s h = refl
ltz_larger_left (negsuc m) (pos a) (pos s) h = ground arith
ltz_larger_left (negsuc m) (pos a) (negsuc s) h = ground arith
ltz_larger_left (negsuc m) (negsuc a) (pos s) h = ground arith
ltz_larger_left (negsuc m) (negsuc a) (negsuc s) h = ground arith

pub ltz_larger_right : (m a s : ℤ) → ltz m (if ltz a s then s else a) ≡ false → ltz m s ≡ false
ltz_larger_right m (pos a) (pos s) h = ground arith
ltz_larger_right m (pos a) (negsuc s) h = ground arith
ltz_larger_right m (negsuc a) (pos s) h = h
ltz_larger_right m (negsuc a) (negsuc s) h = ground arith
