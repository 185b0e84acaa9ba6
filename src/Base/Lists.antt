-- ===== src/Base/Lists.antt =====
-- Lists measured and indexed by native numbers, under the library's names.
use Prim.Native.Nat.{ℕ, zero, suc, ◌+◌, ◌-◌, ◌≤◌, ◌<◌, min}
use mathlib.Core.Path.{◌≡◌, refl, ap, subst}
use mathlib.Core.List.{List, [], ◌∷◌, ◌++◌}
use mathlib.Core.Option.{Option, none, some}
use native.Mathlib.Omega.{arith}

module _ {ℓ} {A : Type ℓ} where
  abbrev pub length : List A → ℕ
  length [] = 0
  length (x ∷ xs) = suc (length xs)

  abbrev pub get_elem? : List A → ℕ → Option A
  get_elem? [] i = none
  get_elem? (x ∷ xs) zero = some x
  get_elem? (x ∷ xs) (suc i) = get_elem? xs i

  abbrev pub take : ℕ → List A → List A
  take zero xs = []
  take (suc n) [] = []
  take (suc n) (x ∷ xs) = x ∷ take n xs

  abbrev pub drop : ℕ → List A → List A
  drop zero xs = xs
  drop (suc n) [] = []
  drop (suc n) (x ∷ xs) = drop n xs

  -- Every element satisfies the predicate.
  abbrev pub All {κ} : (A → Type κ) → List A → Type κ
  All P [] = Unit
  All P (x ∷ xs) = P x × All P xs

module _ {ℓ} {A : Type ℓ} where
  pub length-append : (xs ys : List A) → length (xs ++ ys) ≡ length xs + length ys
  length-append [] ys = omega arith
  length-append (x ∷ xs) ys = omega (arith, length-append xs ys)

  pub length-take : (n : ℕ) (xs : List A) → length (take n xs) ≡ min n (length xs)
  length-take zero xs = omega arith
  length-take (suc n) [] = omega arith
  length-take (suc n) (x ∷ xs) = omega (arith, length-take n xs)

  pub length-drop : (n : ℕ) (xs : List A) → length (drop n xs) ≡ length xs - n
  length-drop zero xs = omega arith
  length-drop (suc n) [] = omega arith
  length-drop (suc n) (x ∷ xs) = omega (arith, length-drop n xs)

  pub take-append-drop : (n : ℕ) (xs : List A) → take n xs ++ drop n xs ≡ xs
  take-append-drop zero xs = refl
  take-append-drop (suc n) [] = refl
  take-append-drop (suc n) (x ∷ xs) = rw (take-append-drop n xs)

  pub get_elem?-eq-some :
      (xs : List A) (i : ℕ) → i < length xs → (a : A) × (get_elem? xs i ≡ some a)
  get_elem?-eq-some [] i h = elim h [ ]
  get_elem?-eq-some (x ∷ xs) zero h = (x, refl)
  get_elem?-eq-some (x ∷ xs) (suc i) h = get_elem?-eq-some xs i (omega arith)

  pub lt_of_get_elem? : (xs : List A) (i : ℕ) (a : A) → get_elem? xs i ≡ some a → i < length xs
  lt_of_get_elem? [] i a h = absurd (cc)
  lt_of_get_elem? (x ∷ xs) zero a h = omega arith
  lt_of_get_elem? (x ∷ xs) (suc i) a h = omega (arith, lt_of_get_elem? xs i a h)

  pub take_of_length-le : (n : ℕ) (xs : List A) → length xs ≤ n → take n xs ≡ xs
  take_of_length-le zero [] h = refl
  take_of_length-le zero (x ∷ xs) h = absurd (omega arith)
  take_of_length-le (suc n) [] h = refl
  take_of_length-le (suc n) (x ∷ xs) h = rw (take_of_length-le n xs (omega arith))

  pub take-append-take :
      (n : ℕ) (xs ys : List A) → n ≤ length xs → take n (take n xs ++ ys) ≡ take n xs
  take-append-take zero xs ys h = refl
  take-append-take (suc n) [] ys h = absurd (omega arith)
  take-append-take (suc n) (x ∷ xs) ys h = rw (take-append-take n xs ys (omega arith))

  pub drop-append-take : (n : ℕ) (xs ys : List A) → n ≤ length xs → drop n (take n xs ++ ys) ≡ ys
  drop-append-take zero xs ys h = refl
  drop-append-take (suc n) [] ys h = absurd (omega arith)
  drop-append-take (suc n) (x ∷ xs) ys h = drop-append-take n xs ys (omega arith)

  pub get_elem?-append-take :
      (n : ℕ) (xs ys : List A)
      → n < length xs
      → get_elem? (take (suc n) xs ++ ys) n ≡ get_elem? xs n
  get_elem?-append-take n [] ys h = elim h [ ]
  get_elem?-append-take zero (x ∷ xs) ys h = refl
  get_elem?-append-take (suc n) (x ∷ xs) ys h = get_elem?-append-take n xs ys (omega arith)

  pub get_elem?-eq-none : (xs : List A) (i : ℕ) → get_elem? xs i ≡ none → length xs ≤ i
  get_elem?-eq-none [] i h = omega arith
  get_elem?-eq-none (x ∷ xs) zero h = absurd (cc)
  get_elem?-eq-none (x ∷ xs) (suc i) h = omega (arith, get_elem?-eq-none xs i h)

  pub drop-eq-cons :
      (n : ℕ) (xs : List A) (x : A) → get_elem? xs n ≡ some x → drop n xs ≡ x ∷ drop (suc n) xs
  drop-eq-cons n [] x h = cc
  drop-eq-cons zero (y ∷ ys) x h = cc
  drop-eq-cons (suc n) (y ∷ ys) x h = drop-eq-cons n ys x h

  pub take-take : (c d : ℕ) (xs : List A) → c ≤ d → take c (take d xs) ≡ take c xs
  take-take zero d xs h = refl
  take-take (suc c) zero xs h = absurd (omega arith)
  take-take (suc c) (suc d) [] h = refl
  take-take (suc c) (suc d) (x ∷ xs) h = rw (take-take c d xs (omega arith))

  pub take-append_of_le : (c : ℕ) (xs ys : List A) → c ≤ length xs → take c (xs ++ ys) ≡ take c xs
  take-append_of_le zero xs ys h = refl
  take-append_of_le (suc c) [] ys h = absurd (omega arith)
  take-append_of_le (suc c) (x ∷ xs) ys h = rw (take-append_of_le c xs ys (omega arith))

  -- A prefix is kept where the part below `k` is kept and the part from `k` on keeps its share.
  pub take_split :
      (c k : ℕ) (xs ys : List A)
      → k ≤ length xs
      → take (c - k) ys ≡ take (c - k) (drop k xs)
      → take c (take k xs ++ ys) ≡ take c xs
  take_split c zero xs ys h e = ground (arith)
  take_split zero (suc k) xs ys h e = refl
  take_split (suc c) (suc k) [] ys h e = absurd (omega arith)
  take_split (suc c) (suc k) (x ∷ xs) ys h e =
      let same : suc c - suc k ≡ c - k = omega arith in
      ap (◌∷◌ x)
        (take_split c k xs ys (omega arith) (subst (λ d. take d ys ≡ take d (drop k xs)) same e))
