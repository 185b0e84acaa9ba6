-- ===== src/Base/Int.antt =====
-- Signed integers over the native numbers, under the library's names (its ℤ stands on another ℕ).
-- A list index of the source is such an integer: -1 stands for "before the first entry".
use Prim.Native.Nat.{ℕ, suc, ◌+◌, ◌-◌, ◌≤◌, ◌<◌}
use mathlib.Core.Path.{◌≡◌}
use mathlib.Core.Bool.{Bool}
use mathlib.Core.Bool.{true}
use native.Mathlib.Omega.{arith}
use distributed_sync_system.Base.Tests.{ltb, leb, if◌then◌else◌}

-- `negsuc n` is -(n + 1).
pub data ℤ : Type 0 where
  pos : ℕ → ℤ
  negsuc : ℕ → ℤ

abbrev pub pos_part : ℤ → ℕ
pos_part (pos n) = n
pos_part (negsuc n) = 0

abbrev pub neg_part : ℤ → ℕ
neg_part (pos n) = 0
neg_part (negsuc n) = suc n

-- a - b, as an integer.
abbrev pub sub_ℕ : ℕ → ℕ → ℤ
sub_ℕ a b = if leb b a then pos (a - b) else negsuc (b - a - 1)

infixl 65 ◌+ℤ◌ ◌-ℤ◌
infix 50 ◌≤ℤ◌ ◌<ℤ◌
unfoldable pub ◌+ℤ◌ : ℤ → ℤ → ℤ
a +ℤ b = sub_ℕ (pos_part a + pos_part b) (neg_part a + neg_part b)

unfoldable pub ◌-ℤ◌ : ℤ → ℤ → ℤ
a -ℤ b = sub_ℕ (pos_part a + neg_part b) (neg_part a + pos_part b)

abbrev pub ◌≤ℤ◌ : ℤ → ℤ → Type 0
a ≤ℤ b = pos_part a + neg_part b ≤ pos_part b + neg_part a

abbrev pub ◌<ℤ◌ : ℤ → ℤ → Type 0
a <ℤ b = pos_part a + neg_part b < pos_part b + neg_part a

abbrev pub ltb_ℤ : ℤ → ℤ → Bool
ltb_ℤ a b = ltb (pos_part a + neg_part b) (pos_part b + neg_part a)

abbrev pub leb_ℤ : ℤ → ℤ → Bool
leb_ℤ a b = leb (pos_part a + neg_part b) (pos_part b + neg_part a)

unfoldable pub max_ℤ : ℤ → ℤ → ℤ
max_ℤ a b = if ltb_ℤ a b then b else a

unfoldable pub min_ℤ : ℤ → ℤ → ℤ
min_ℤ a b = if ltb_ℤ b a then b else a

-- One lemma for each operation lets `omega` work with the operations shut.
pub +ℤ_parts :
    (a b : ℤ)
    → pos_part (a +ℤ b) + neg_part a + neg_part b ≡ neg_part (a +ℤ b) + pos_part a + pos_part b
unfolding ◌+ℤ◌
+ℤ_parts a b = ground arith

pub -ℤ_parts :
    (a b : ℤ)
    → pos_part (a -ℤ b) + neg_part a + pos_part b ≡ neg_part (a -ℤ b) + pos_part a + neg_part b
unfolding ◌-ℤ◌
-ℤ_parts a b = ground arith

-- The index of the last entry of a list of length `n`.
pub -ℤ-suc_one : (n : ℕ) → pos (suc n) -ℤ pos 1 ≡ pos n
unfolding ◌-ℤ◌
-ℤ-suc_one n = ground arith

pub +ℤ-pos_one : (n : ℕ) → pos n +ℤ pos 1 ≡ pos (suc n)
unfolding ◌+ℤ◌
+ℤ-pos_one n = ground arith

pub +ℤ-pos : (n m : ℕ) → pos n +ℤ pos m ≡ pos (n + m)
unfolding ◌+ℤ◌
+ℤ-pos n m = ground arith

pub max_ℤ-le : (a b : ℤ) → (a ≤ℤ max_ℤ a b) × (b ≤ℤ max_ℤ a b)
unfolding max_ℤ
max_ℤ-le a b = ground arith

pub min_ℤ-le : (a b : ℤ) → (min_ℤ a b ≤ℤ a) × (min_ℤ a b ≤ℤ b)
unfolding min_ℤ
min_ℤ-le a b = ground arith

pub le-min_ℤ : (a b c : ℤ) → c ≤ℤ a → c ≤ℤ b → c ≤ℤ min_ℤ a b
unfolding min_ℤ
le-min_ℤ a b c h k = ground arith

-- How many list indices there are up to and with this one.
abbrev pub upto : ℤ → ℕ
upto (pos i) = suc i
upto (negsuc k) = 0

pub upto_mono : (a b : ℤ) → a ≤ℤ b → upto a ≤ upto b
upto_mono a b h = ground arith

pub upto-le : (a : ℤ) (n : ℕ) → a <ℤ pos n → upto a ≤ n
upto-le a n h = ground arith

pub +ℤ-one : (a : ℤ) → negsuc 0 ≤ℤ a → a +ℤ pos 1 ≡ pos (upto a)
unfolding ◌+ℤ◌
+ℤ-one a h = ground arith

pub ltb_ℤ_of_lt : (a b : ℤ) → a <ℤ b → ltb_ℤ a b ≡ true
ltb_ℤ_of_lt a b h = ground arith

pub pos_part--ℤ : (a b : ℤ) → negsuc 0 ≤ℤ a → a ≤ℤ b → pos_part (b -ℤ a) ≡ upto b - upto a
unfolding ◌-ℤ◌
pos_part--ℤ a b h k = ground arith

pub -ℤ_self : (a b : ℤ) → a ≡ b → pos_part (b -ℤ a) ≡ 0
unfolding ◌-ℤ◌
-ℤ_self a b h = ground arith
