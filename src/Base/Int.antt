-- ===== src/Base/Int.antt =====
-- Integers over the native numbers, under the library's names. Their order goes through the two parts of an
-- integer, which are numbers.
use Prim.Native.Nat.{ℕ, suc, ◌+◌, ◌-◌, ◌≤◌, ◌<◌}
use mathlib.Core.Path.{◌≡◌, refl}
use mathlib.Core.Bool.{Bool, true}
use native.Mathlib.Omega.{arith}
use llm_serve.Base.Tests.{leb, if◌then◌else◌}

-- `negsuc n` is -(n + 1).
pub data ℤ : Type 0 where
  pos : ℕ → ℤ
  negsuc : ℕ → ℤ

abbrev pub pos_part : ℤ → ℕ
pos_part (pos n) = n
pos_part (negsuc n) = 0

abbrev pub neg_part : ℤ → ℕ
neg_part (pos n) = 0
neg_part (negsuc n) = suc n

-- a - b, as an integer.
abbrev pub sub_ℕ : ℕ → ℕ → ℤ
sub_ℕ a b = if leb b a then pos (a - b) else negsuc (b - a - 1)

infixl 65 ◌+ℤ◌
infix 50 ◌≤ℤ◌ ◌<ℤ◌
unfoldable pub ◌+ℤ◌ : ℤ → ℤ → ℤ
pos a +ℤ pos b = pos (a + b)
pos a +ℤ negsuc b = sub_ℕ a (suc b)
negsuc a +ℤ pos b = sub_ℕ b (suc a)
negsuc a +ℤ negsuc b = negsuc (suc (a + b))

abbrev pub ◌≤ℤ◌ : ℤ → ℤ → Type 0
a ≤ℤ b = pos_part a + neg_part b ≤ pos_part b + neg_part a

abbrev pub ◌<ℤ◌ : ℤ → ℤ → Type 0
a <ℤ b = pos_part a + neg_part b < pos_part b + neg_part a

abbrev pub leb_ℤ : ℤ → ℤ → Bool
leb_ℤ a b = leb (pos_part a + neg_part b) (pos_part b + neg_part a)

abbrev pub min_ℤ : ℤ → ℤ → ℤ
min_ℤ a b = if leb_ℤ a b then a else b

-- An integer that is not below a number is a number.
pub pos_of_le : (n : ℕ) (z : ℤ) → pos n ≤ℤ z → z ≡ pos (pos_part z)
pos_of_le n (pos k) h = refl
pos_of_le n (negsuc k) h = absurd (omega arith)

pub leb_ℤ→le : (a b : ℕ) → leb_ℤ (pos a) (pos b) ≡ true → a ≤ b
leb_ℤ→le a b h = ground arith

pub le→leb_ℤ : (a b : ℕ) → a ≤ b → leb_ℤ (pos a) (pos b) ≡ true
le→leb_ℤ a b h = ground arith

-- The smaller of an integer above 0 and a number above 0.
pub min_ℤ-pos :
    (z : ℤ) (k : ℕ)
    → pos 0 <ℤ z
    → 0 < k
    → (pos 0 <ℤ min_ℤ z (pos k)) × (pos_part (min_ℤ z (pos k)) ≤ pos_part z)
min_ℤ-pos (pos n) k h l = ground arith
min_ℤ-pos (negsuc n) k h l = absurd (omega arith)

pub sub_ℕ-pos : (a b : ℕ) → b ≤ a → sub_ℕ a b ≡ pos (a - b)
sub_ℕ-pos a b h = ground arith
