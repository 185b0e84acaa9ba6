-- ===== src/Base/Text.antt =====
-- Equality of texts as a decision, and sets of texts as lists without repetition.
use Prim.Native.String.{String}
use mathlib.Core.Path.{◌≡◌, refl}
use mathlib.Core.Logic.{ite}
use mathlib.Core.Bool.{◌||◌, Bool, true, false}
use mathlib.Core.List.{List, [], ◌∷◌}
use text.Mathlib.Text.{◌==◌}
use text.Mathlib.TextEquality.{eq_iff}
use native.Mathlib.Omega.{arith}

decision : (a b : String) (t : Bool) → (a == b) ≡ t → Dec (a ≡ b)
decision a b true e = yes ((eq_iff a b).0 e)
decision a b false e = no (λ p. ground (arith, eq_iff a b))

unfoldable pub str_dec : Discrete String
unfolding decision
str_dec a b = decision a b (a == b) refl

-- `x in s`
unfoldable pub contains : String → List String → Bool
contains x [] = false
contains x (y ∷ ys) = ite (str_dec x y) true (contains x ys)

-- `s.add(x)`
unfoldable pub add : String → List String → List String
add x [] = x ∷ []
add x (y ∷ ys) = ite (str_dec x y) (y ∷ ys) (y ∷ add x ys)

-- `s.discard(x)`
unfoldable pub discard : String → List String → List String
discard x [] = []
discard x (y ∷ ys) = ite (str_dec x y) (discard x ys) (y ∷ discard x ys)

-- `s | t`, `s.update(t)`
unfoldable pub union : List String → List String → List String
union s [] = s
union s (y ∷ ys) = union (add y s) ys

pub contains-add :
    (x y : String) (s : List String) → contains x (add y s) ≡ ite (str_dec x y) true (contains x s)
unfolding contains add
contains-add x y [] = refl
contains-add x y (z ∷ s) = ground (arith, contains-add x y s)

pub contains-discard :
    (x y : String) (s : List String)
    → contains x (discard y s) ≡ ite (str_dec x y) false (contains x s)
unfolding contains discard
contains-discard x y [] = ground arith
contains-discard x y (z ∷ s) = ground (arith, contains-discard x y s)

pub contains-union :
    (x : String) (s t : List String) → contains x (union s t) ≡ contains x s || contains x t
unfolding contains union
contains-union x s [] = ground arith
contains-union x s (y ∷ t) = ground (arith, contains-union x (add y s) t, contains-add x y s)
