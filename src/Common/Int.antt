-- ===== src/Common/Int.antt =====
-- Signed integers: `negsuc n` is -(n + 1).
use Prim.Native.Nat.{ℕ, ◌+◌, ◌-◌, ◌^◌, suc, ◌≤◌}
use mathlib.Core.Path.{◌≡◌}
use native.Mathlib.Omega.{arith}
use mathlib.Core.Bool.{Bool, true, false}
use mongodb_dam.Common.Tests.{ltb, ◌==◌, if◌then◌else◌}

pub data ℤ : Type 0 where
  pos : ℕ → ℤ
  negsuc : ℕ → ℤ

-- The two's complement reading of a `width`-bit pattern, at `half = 2 ^ (width - 1)`.
abbrev pub signed : ℕ → ℕ → ℤ
signed half w = if ltb w half then pos w else negsuc (half + half - w - 1)

-- `value < n` for a literal `n`
abbrev pub is_below : ℤ → ℕ → Bool
is_below (pos a) n = ltb a n
is_below (negsuc a) n = true

-- `value == n` for a literal `n`
abbrev pub is_int : ℤ → ℕ → Bool
is_int (pos a) n = a == n
is_int (negsuc a) n = false

-- `value as usize`, on a 64-bit target
abbrev pub as_usize : ℤ → ℕ
as_usize (pos a) = a
as_usize (negsuc a) = 2 ^ 64 - suc a

pub as_usize-le : (n : ℕ) (v : ℤ) → is_below v n ≡ false → n ≤ as_usize v
as_usize-le n (pos a) h = ground arith
as_usize-le n (negsuc a) h = cc

-- `a == b`
abbrev pub int_eq : ℤ → ℤ → Bool
int_eq (pos a) (pos b) = a == b
int_eq (negsuc a) (negsuc b) = a == b
int_eq _ _ = false
