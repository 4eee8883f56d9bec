-- ===== src/Base/Int.antt =====
-- Signed integers over the native numbers, and the `hyper` of XDR: 64 bits, two's complement.
use Prim.Native.Nat.{ℕ, suc, ◌+◌, ◌*◌, ◌-◌, ◌%◌, ◌^◌, ◌<◌}
use mathlib.Core.Bool.{Bool}
use mathlib.Core.Option.{Option, none, some}
use mathlib.Core.List.{List, [], ◌∷◌}
use dp.Base.Tests.{ltb, if◌then◌else◌}

-- `negsuc n` is -(n + 1).
pub data ℤ : Type 0 where
  pos : ℕ → ℤ
  negsuc : ℕ → ℤ

abbrev pub magnitude : ℤ → ℕ
magnitude (pos n) = n
magnitude (negsuc n) = suc n

-- The first number above the range of `hyper`.
abbrev pub hyper_limit : ℕ
hyper_limit = 2 ^ 63

abbrev pub IsHyper : ℤ → Type 0
IsHyper (pos n) = n < hyper_limit
IsHyper (negsuc n) = n < hyper_limit

abbrev pub AllHyper : List ℤ → Type 0
AllHyper [] = Unit
AllHyper (v ∷ vs) = IsHyper v × AllHyper vs

-- The product of a `hyper` with itself: undefined in C if it has more than 63 bits.
unfoldable pub square : ℤ → Option ℤ
square v = let n = magnitude v * magnitude v in if ltb n hyper_limit then some (pos n) else none

-- The conversion to `unsigned int`
abbrev pub to_uint : ℤ → ℕ
to_uint (pos n) = n % 2 ^ 32
to_uint (negsuc n) = 2 ^ 32 - 1 - n % 2 ^ 32

unfoldable pub sub_nat : ℕ → ℕ → ℤ
sub_nat m n = if ltb m n then negsuc (n - m - 1) else pos (m - n)

infixl 6 ◌+ℤ◌
unfoldable pub ◌+ℤ◌ : ℤ → ℤ → ℤ
unfolding sub_nat
pos m +ℤ pos n = pos (m + n)
pos m +ℤ negsuc n = sub_nat m (suc n)
negsuc m +ℤ pos n = sub_nat n (suc m)
negsuc m +ℤ negsuc n = negsuc (suc (m + n))

-- Whether `int`, of 32 bits, holds a number.
unfoldable pub is_int : ℤ → Bool
is_int (pos n) = ltb n (2 ^ 31)
is_int (negsuc n) = ltb n (2 ^ 31)

-- The sum of two numbers of type `int`: undefined in C if the type does not hold it.
unfoldable pub int_sum : ℤ → ℤ → Option ℤ
unfolding ◌+ℤ◌ is_int
int_sum a b = let s = a +ℤ b in if is_int s then some s else none
