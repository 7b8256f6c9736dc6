-- ===== src/Prelude/Int.antt =====
-- Signed integers over the native numbers, and Go's int32 and int64 as the integers in their range.
use Prim.Native.Nat.{ℕ, suc, ◌+◌, ◌-◌, ◌%◌, ◌^◌, ◌≤◌}
use mathlib.Core.Path.{◌≡◌}
use mathlib.Core.Bool.{Bool}
use native.Mathlib.Omega.{arith}
use mysql_keeper.Prelude.Tests.{ltb, leb, ◌==◌, if◌then◌else◌}

-- `negsuc n` is -(n + 1).
pub data ℤ : Type 0 where
  pos : ℕ → ℤ
  negsuc : ℕ → ℤ

abbrev pub pos_part : ℤ → ℕ
pos_part (pos n) = n
pos_part (negsuc n) = 0

abbrev pub neg_part : ℤ → ℕ
neg_part (pos n) = 0
neg_part (negsuc n) = suc n

abbrev pub sub_ℕ : ℕ → ℕ → ℤ
sub_ℕ a b = if leb b a then pos (a - b) else negsuc (b - a - 1)

infixl 65 ◌+ℤ◌ ◌-ℤ◌
infix 50 ◌≤ℤ◌ ◌<ℤ◌
unfoldable pub ◌+ℤ◌ : ℤ → ℤ → ℤ
a +ℤ b = sub_ℕ (pos_part a + pos_part b) (neg_part a + neg_part b)

unfoldable pub ◌-ℤ◌ : ℤ → ℤ → ℤ
a -ℤ b = sub_ℕ (pos_part a + neg_part b) (neg_part a + pos_part b)

abbrev pub ◌≤ℤ◌ : ℤ → ℤ → Type 0
a ≤ℤ b = pos_part a + neg_part b ≤ pos_part b + neg_part a

abbrev pub ◌<ℤ◌ : ℤ → ℤ → Type 0
a <ℤ b = suc (pos_part a + neg_part b) ≤ pos_part b + neg_part a

abbrev pub ltb_ℤ : ℤ → ℤ → Bool
ltb_ℤ a b = ltb (pos_part a + neg_part b) (pos_part b + neg_part a)

abbrev pub leb_ℤ : ℤ → ℤ → Bool
leb_ℤ a b = leb (pos_part a + neg_part b) (pos_part b + neg_part a)

abbrev pub eqb_ℤ : ℤ → ℤ → Bool
eqb_ℤ a b = (pos_part a + neg_part b) == (pos_part b + neg_part a)

pub +ℤ_parts :
    (a b : ℤ)
    → pos_part (a +ℤ b) + neg_part a + neg_part b ≡ neg_part (a +ℤ b) + pos_part a + pos_part b
unfolding ◌+ℤ◌
+ℤ_parts a b = ground arith

pub -ℤ_parts :
    (a b : ℤ)
    → pos_part (a -ℤ b) + neg_part a + pos_part b ≡ neg_part (a -ℤ b) + pos_part a + neg_part b
unfolding ◌-ℤ◌
-ℤ_parts a b = ground arith

pub eq_of_parts : (a b : ℤ) → pos_part a + neg_part b ≡ pos_part b + neg_part a → a ≡ b
eq_of_parts a b h = ground arith

pub ruleset int_laws = (arith, +ℤ_parts, -ℤ_parts, eq_of_parts)

-- The value that a two's complement word of `w` bits keeps of an integer.
residue : ℕ → ℤ → ℕ
residue m (pos n) = n % m
residue m (negsuc n) = m - 1 - n % m

unfoldable pub wrap : ℕ → ℤ → ℤ
unfolding residue
wrap w z =
    let r = residue (2 ^ w) z in if ltb r (2 ^ (w - 1)) then pos r else negsuc (2 ^ w - 1 - r)

-- `int32(n)` and `int64(n)`
abbrev pub wrap32 : ℤ → ℤ
wrap32 = wrap 32

abbrev pub wrap64 : ℤ → ℤ
wrap64 = wrap 64

-- The integers that an int32 or an int64 holds.
abbrev pub InInt32 : ℤ → Type 0
InInt32 z = (negsuc 2147483647 ≤ℤ z) × (z ≤ℤ pos 2147483647)

abbrev pub InInt64 : ℤ → Type 0
InInt64 z = (negsuc 9223372036854775807 ≤ℤ z) × (z ≤ℤ pos 9223372036854775807)

-- A value in range keeps itself.
pub wrap32_self : (z : ℤ) → InInt32 z → wrap32 z ≡ z
unfolding wrap
wrap32_self (pos n) h = ground arith
wrap32_self (negsuc n) h = ground arith

pub wrap64_self : (z : ℤ) → InInt64 z → wrap64 z ≡ z
unfolding wrap
wrap64_self (pos n) h = ground arith
wrap64_self (negsuc n) h = ground arith

-- Wrapping a summand first changes nothing.
pub wrap64_+ℤ : (a b : ℤ) → wrap64 (wrap64 a +ℤ b) ≡ wrap64 (a +ℤ b)
unfolding wrap ◌+ℤ◌
wrap64_+ℤ (pos a) (pos b) = ground arith
wrap64_+ℤ (pos a) (negsuc b) = ground arith
wrap64_+ℤ (negsuc a) (pos b) = ground arith
wrap64_+ℤ (negsuc a) (negsuc b) = ground arith
