-- ===== src/Base/Numbers.antt =====
-- Go's `int` and `int32` as integers over the native numbers, with the conversions that wrap.
use Prim.Native.Nat.{ℕ, suc, ◌+◌, ◌-◌, ◌*◌, ◌%◌, ◌≤◌, ◌<◌}
use mathlib.Core.Path.{◌≡◌, refl}
use mathlib.Core.Bool.{Bool, true}
use native.Mathlib.Omega.{arith}
use temporalops.Base.Tests.{ltb, leb, ◌==◌, if◌then◌else◌}

-- `negsuc n` is -(n + 1).
pub data ℤ : Type 0 where
  pos : ℕ → ℤ
  negsuc : ℕ → ℤ

abbrev pub pos_part : ℤ → ℕ
pos_part (pos n) = n
pos_part (negsuc n) = 0

abbrev pub neg_part : ℤ → ℕ
neg_part (pos n) = 0
neg_part (negsuc n) = suc n

-- a - b, as an integer.
abbrev pub sub_ℕ : ℕ → ℕ → ℤ
sub_ℕ a b = if leb b a then pos (a - b) else negsuc (b - a - 1)

infixl 65 ◌+ℤ◌ ◌-ℤ◌
infixl 70 ◌*ℤ◌
unfoldable pub ◌+ℤ◌ : ℤ → ℤ → ℤ
a +ℤ b = sub_ℕ (pos_part a + pos_part b) (neg_part a + neg_part b)

unfoldable pub ◌-ℤ◌ : ℤ → ℤ → ℤ
a -ℤ b = sub_ℕ (pos_part a + neg_part b) (neg_part a + pos_part b)

unfoldable pub ◌*ℤ◌ : ℤ → ℤ → ℤ
a *ℤ b =
    sub_ℕ (pos_part a * pos_part b + neg_part a * neg_part b)
      (pos_part a * neg_part b + neg_part a * pos_part b)

infix 50 ◌<ℤ◌
abbrev pub ◌<ℤ◌ : ℤ → ℤ → Bool
a <ℤ b = ltb (pos_part a + neg_part b) (pos_part b + neg_part a)

infix 50 ◌==ℤ◌
abbrev pub ◌==ℤ◌ : ℤ → ℤ → Bool
a ==ℤ b = pos_part a + neg_part b == pos_part b + neg_part a

pub ==ℤ_eq : (a b : ℤ) → (a ==ℤ b) ≡ true → a ≡ b
==ℤ_eq a b h = ground arith

-- The two's complement value of an integer in a word with 2 ^ (w + 1) values, `half` being 2 ^ w.
abbrev wrap_at : ℕ → ℤ → ℤ
wrap_at half (pos n) =
    let r = n % (2 * half) in if ltb r half then pos r else negsuc (2 * half - 1 - r)
wrap_at half (negsuc n) =
    let r = n % (2 * half) in if ltb r half then negsuc r else pos (2 * half - 1 - r)

-- The conversions `int32(x)` of an `int`, and the arithmetic of `int64`.
unfoldable pub to_int32 : ℤ → ℤ
to_int32 x = wrap_at 2147483648 x

unfoldable pub to_int64 : ℤ → ℤ
to_int64 x = wrap_at 9223372036854775808 x

-- A value of `int32`.
abbrev pub IsInt32 : ℤ → Type 0
IsInt32 x = (pos_part x < 2147483648) × (neg_part x ≤ 2147483648)

pub to_int32_of_IsInt32 : (x : ℤ) → IsInt32 x → to_int32 x ≡ x
unfolding to_int32
to_int32_of_IsInt32 (pos n) h = ground arith
to_int32_of_IsInt32 (negsuc n) h = ground arith

pub to_int32-IsInt32 : (x : ℤ) → IsInt32 (to_int32 x)
unfolding to_int32
to_int32-IsInt32 (pos n) = ground arith
to_int32-IsInt32 (negsuc n) = ground arith

wrap_tests :
    (to_int32 (pos 2147483648) ≡ negsuc 2147483647)
    × (to_int32 (pos 4294967297) ≡ pos 1)
    × (to_int32 (negsuc 2147483648) ≡ pos 2147483647)
    × (to_int32 (negsuc 0) ≡ negsuc 0)
unfolding to_int32
wrap_tests = (refl, refl, refl, refl)
