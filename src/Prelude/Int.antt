-- ===== src/Prelude/Int.antt =====
-- Go's int, as far as the program compares it. `negsuc n` is -(n + 1).
use Prim.Native.Nat.{ℕ}
use mathlib.Core.Path.{◌≡◌, refl}
use mathlib.Core.Bool.{Bool, true, false}
use native.Mathlib.Omega.{arith}
use mockgo_server.Prelude.Tests.{ltb}

pub data ℤ : Type 0 where
  pos : ℕ → ℤ
  negsuc : ℕ → ℤ

-- a < b
abbrev pub lt_int : ℤ → ℤ → Bool
lt_int (pos a) (pos b) = ltb a b
lt_int (pos a) (negsuc b) = false
lt_int (negsuc a) (pos b) = true
lt_int (negsuc a) (negsuc b) = ltb b a

pub lt_int_irrefl : (a : ℤ) → lt_int a a ≡ false
lt_int_irrefl (pos a) = ground arith
lt_int_irrefl (negsuc a) = ground arith

pub lt_int_asymm : (a b : ℤ) → lt_int a b ≡ true → lt_int b a ≡ false
lt_int_asymm (pos a) (pos b) h = ground arith
lt_int_asymm (pos a) (negsuc b) h = ground arith
lt_int_asymm (negsuc a) (pos b) h = ground arith
lt_int_asymm (negsuc a) (negsuc b) h = ground arith

-- b ≤ a and c ≤ b give c ≤ a.
pub le_int_trans : (a b c : ℤ) → lt_int a b ≡ false → lt_int b c ≡ false → lt_int a c ≡ false
le_int_trans (pos a) (pos b) (pos c) h k = ground arith
le_int_trans (pos a) (pos b) (negsuc c) h k = refl
le_int_trans (pos a) (negsuc b) (pos c) h k = ground arith
le_int_trans (pos a) (negsuc b) (negsuc c) h k = refl
le_int_trans (negsuc a) (pos b) (pos c) h k = ground arith
le_int_trans (negsuc a) (pos b) (negsuc c) h k = ground arith
le_int_trans (negsuc a) (negsuc b) (pos c) h k = ground arith
le_int_trans (negsuc a) (negsuc b) (negsuc c) h k = ground arith
