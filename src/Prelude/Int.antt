-- ===== src/Prelude/Int.antt =====
-- Go's `*big.Int`: an integer of any size. `negsuc n` is -(n + 1).
use myference.Prelude.Tests.{◌==◌, ltb, if◌then◌else◌}
use Prim.Native.Nat.{ℕ, ◌+◌, ◌-◌}

pub data ℤ : Type 0 where
  pos : ℕ → ℤ
  negsuc : ℕ → ℤ

-- -n
abbrev pub neg : ℕ → ℤ
neg n = if n == 0 then pos 0 else negsuc (n - 1)

-- a - b
abbrev pub sub_nat : ℕ → ℕ → ℤ
sub_nat a b = if ltb a b then negsuc (b - a - 1) else pos (a - b)

infixl 60 ◌+ℤ◌
abbrev pub ◌+ℤ◌ : ℤ → ℤ → ℤ
pos a +ℤ pos b = pos (a + b)
pos a +ℤ negsuc b = sub_nat a (b + 1)
negsuc a +ℤ pos b = sub_nat b (a + 1)
negsuc a +ℤ negsuc b = negsuc (a + b + 1)
