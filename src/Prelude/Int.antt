-- ===== src/Prelude/Int.antt =====
-- Signed integers over the native numbers, and the 32-bit `int` of C: an operation whose result does
-- not fit is undefined behaviour, hence a fault.
use Prim.Native.Nat.{ℕ, suc, ◌+◌, ◌-◌, ◌*◌, ◌≤◌}
use mathlib.Core.Path.{◌≡◌}
use mathlib.Core.Bool.{Bool, ◌&&◌}
use mathlib.Core.Logic.{inl, inr}
use native.Mathlib.Omega.{arith}
use ribabari.Prelude.Tests.{ltb, leb, if◌then◌else◌, Bool-cases}
use ribabari.Prelude.Outcome.{Run, ok, fault, ok-inj}

-- `negsuc n` is -(n + 1).
pub data ℤ : Type 0 where
  pos : ℕ → ℤ
  negsuc : ℕ → ℤ

abbrev pub pos_part : ℤ → ℕ
pos_part (pos n) = n
pos_part (negsuc n) = 0

abbrev pub neg_part : ℤ → ℕ
neg_part (pos n) = 0
neg_part (negsuc n) = suc n

abbrev pub sub_ℕ : ℕ → ℕ → ℤ
sub_ℕ a b = if leb b a then pos (a - b) else negsuc (b - a - 1)

infixl 65 ◌+ℤ◌ ◌-ℤ◌
infixl 70 ◌*ℤ◌
infix 50 ◌≤ℤ◌ ◌<ℤ◌
unfoldable pub ◌+ℤ◌ : ℤ → ℤ → ℤ
a +ℤ b = sub_ℕ (pos_part a + pos_part b) (neg_part a + neg_part b)

unfoldable pub ◌-ℤ◌ : ℤ → ℤ → ℤ
a -ℤ b = sub_ℕ (pos_part a + neg_part b) (neg_part a + pos_part b)

unfoldable pub ◌*ℤ◌ : ℤ → ℤ → ℤ
a *ℤ b =
    sub_ℕ (pos_part a * pos_part b + neg_part a * neg_part b)
      (pos_part a * neg_part b + neg_part a * pos_part b)

abbrev pub ◌≤ℤ◌ : ℤ → ℤ → Type 0
a ≤ℤ b = pos_part a + neg_part b ≤ pos_part b + neg_part a

abbrev pub ◌<ℤ◌ : ℤ → ℤ → Type 0
a <ℤ b = suc (pos_part a + neg_part b) ≤ pos_part b + neg_part a

abbrev pub ltb_ℤ : ℤ → ℤ → Bool
ltb_ℤ a b = ltb (pos_part a + neg_part b) (pos_part b + neg_part a)

abbrev pub leb_ℤ : ℤ → ℤ → Bool
leb_ℤ a b = leb (pos_part a + neg_part b) (pos_part b + neg_part a)

abbrev pub eq_ℤ : ℤ → ℤ → Bool
eq_ℤ a b = leb_ℤ a b && leb_ℤ b a

pub eq_of_parts : (a b : ℤ) → pos_part a + neg_part b ≡ pos_part b + neg_part a → a ≡ b
eq_of_parts a b h = ground arith

pub +ℤ_parts :
    (a b : ℤ)
    → pos_part (a +ℤ b) + neg_part a + neg_part b ≡ neg_part (a +ℤ b) + pos_part a + pos_part b
unfolding ◌+ℤ◌
+ℤ_parts a b = ground arith

pub -ℤ_parts :
    (a b : ℤ)
    → pos_part (a -ℤ b) + neg_part a + pos_part b ≡ neg_part (a -ℤ b) + pos_part a + neg_part b
unfolding ◌-ℤ◌
-ℤ_parts a b = ground arith

pub ruleset int_laws = (arith, +ℤ_parts, -ℤ_parts, eq_of_parts)

-- INT_MAX, and the size of INT_MIN.
abbrev pub int_max : ℕ
int_max = 2147483647

abbrev pub int_min : ℕ
int_min = 2147483648

abbrev pub Fits : ℤ → Type 0
Fits a = (pos_part a ≤ int_max) × (neg_part a ≤ int_min)

abbrev pub int : ℤ → Run ℤ
int a = if leb (pos_part a) int_max && leb (neg_part a) int_min then ok a else fault

pub int-ok : (a : ℤ) → Fits a → int a ≡ ok a
int-ok a h = ground arith

-- A result is the exact one.
pub int-exact : (a b : ℤ) → int a ≡ ok b → a ≡ b
int-exact a b h = elim (Bool-cases (leb (pos_part a) int_max && leb (neg_part a) int_min)) [
  | inl e ↦ ok-inj a b (rw e at h)
  | inr e ↦ absurd (let gone = rw e at h in cc)
]

-- The macros MIN and MAX of tools/math.h.
abbrev pub max_int : ℤ → ℤ → ℤ
max_int a b = if leb_ℤ b a then a else b

abbrev pub min_int : ℤ → ℤ → ℤ
min_int a b = if leb_ℤ a b then a else b
