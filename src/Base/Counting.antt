-- ===== src/Base/Counting.antt =====
-- Counting in lists of texts, for arguments about majorities.
use Prim.Native.Nat.{ℕ, ◌+◌, ◌≤◌, ◌<◌}
use Prim.Native.String.{String}
use mathlib.Core.Path.{◌≡◌}
use mathlib.Core.Bool.{Bool, true, false, ◌&&◌}
use mathlib.Core.Logic.{inl, inr, if_pos, if_neg}
use mathlib.Core.List.{List, [], ◌∷◌}
use native.Mathlib.Omega.{arith}
use distributed_sync_system.Base.Tests.{if◌then◌else◌, Bool-cases}
use distributed_sync_system.Base.Lists.{length, All}
use distributed_sync_system.Base.Text.{contains, str_dec}

-- How many of the list pass the test.
pub count : (String → Bool) → List String → ℕ
count p [] = 0
count p (x ∷ xs) = (if p x then 1 else 0) + count p xs

-- No text stands in the list twice.
abbrev pub Distinct : List String → Type 0
Distinct [] = Unit {0}
Distinct (x ∷ xs) = (contains x xs ≡ false) × Distinct xs

-- Two tests that together pass more often than the list is long pass at one of its texts.
pub count_overlap :
    (p q : String → Bool) (xs : List String)
    → length xs < count p xs + count q xs
    → (x : String) × (contains x xs ≡ true) × (p x ≡ true) × (q x ≡ true)
unfolding count contains
count_overlap p q [] h = absurd (omega arith)
count_overlap p q (x ∷ xs) h = elim (Bool-cases (p x && q x)) [
  | inl both ↦ (x, ground arith, ground arith, ground arith)
  | inr other ↦ let (y, m, a, b) = count_overlap p q xs (ground arith) in (y, ground arith, a, b)
]

count_mono :
    (p q : String → Bool) (xs : List String)
    → ((x : String) → p x ≡ true → q x ≡ true)
    → count p xs ≤ count q xs
unfolding count
count_mono p q [] h = omega arith
count_mono p q (x ∷ xs) h = ground (arith, h x, count_mono p q xs h)

contains-cons :
    (y v : String) (vs : List String) → contains y vs ≡ true → contains y (v ∷ vs) ≡ true
unfolding contains
contains-cons y v vs h = ground arith

count-insert :
    (v : String) (vs xs : List String)
    → contains v xs ≡ true
    → contains v vs ≡ false
    → count (λ x. contains x vs) xs < count (λ x. contains x (v ∷ vs)) xs
unfolding count contains
count-insert v vs [] m n = absurd (cc)
count-insert v vs (x ∷ xs) m n = elim (str_dec x v) [
  | yes e ↦
      let more =
        count_mono (λ y. contains y vs) (λ y. contains y (v ∷ vs)) xs
          (λ y h. contains-cons y v vs h) in
      let old : contains x vs ≡ false = rw e n in rw (if_pos _ e, old) (omega (arith, more))
  | no e ↦
      let there : contains v xs ≡ true = ground arith in
      rw (if_neg _ e) (omega (arith, count-insert v vs xs there n))
]

-- A list without repetition, taken from another, is no longer than the other has members of it.
pub length-le-count :
    (vs xs : List String)
    → Distinct vs
    → All (λ v. contains v xs ≡ true) vs
    → length vs ≤ count (λ x. contains x vs) xs
length-le-count [] xs d a = omega arith
length-le-count (v ∷ vs) xs d a =
    omega (arith, length-le-count vs xs d.1 a.1, count-insert v vs xs a.0 d.0)
