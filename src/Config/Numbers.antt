-- ===== src/Config/Numbers.antt =====
-- The numbers of src/utils/config.py: `int` of an environment variable, and the decimal digits that an
-- f-string writes.
use Prim.Native.Char.{Char, code}
use Prim.Native.Nat.{◌%◌}
use distributed_sync_system.Base.{
  ℕ, zero, suc, ◌+◌, ◌-◌, ◌*◌, ◌/◌, ◌<◌, leb, ◌≤◌, ◌==◌, not, ap, ◌∙◌, Bool, true, false, ◌&&◌,
  ◌||◌, Option, none, some, String, ◌≡◌, refl, if◌then◌else◌, arith, dec_lt,
}
use distributed_sync_system.Config.Words.{
  is_space, strip_left, strip_right, keep_front, strip, is_empty,
}

unfoldable pub digits : ℕ → String → Option ℕ
digits n String.[] = some n
digits n (String.◌∷◌ c s) =
    let rest = digits (10 * n + (code c - 48)) s in
    if leb 48 (code c) && leb (code c) 57 then rest else none

-- `int(s)`, where `none` is a ValueError. The settings are numbers that are not negative, written without a
-- sign and without underscores.
unfoldable pub parse_int : String → Option ℕ
unfolding digits
parse_int s = if is_empty (strip s) then none else digits 0 (strip s)

unfoldable pub digit : ℕ → Char
digit n =
    if n == 0
    then "0"
    else if n == 1
    then "1"
    else if n == 2
    then "2"
    else if n == 3
    then "3"
    else if n == 4
    then "4"
    else if n == 5
    then "5"
    else if n == 6
    then "6"
    else if n == 7
    then "7"
    else if n == 8
    then "8"
    else "9"

-- The decimal digits of a number in front of a text.
unfoldable pub str_onto : ℕ → ℕ → String → String
unfolding digit
str_onto zero n s = s
str_onto (suc k) n s = elim (dec_lt n 10) [
  | yes lt ↦ String.◌∷◌ (digit n) s
  | no ge ↦ str_onto k (n / 10) (String.◌∷◌ (digit (n % 10)) s)
]

unfoldable pub str : ℕ → String
unfolding str_onto
str n = str_onto (suc n) n String.[]

str_onto_last : (k n : ℕ) (s : String) → n < 10 → str_onto (suc k) n s ≡ String.◌∷◌ (digit n) s
unfolding str_onto
str_onto_last k n s h = ground arith

str_onto_next :
    (k n : ℕ) (s : String)
    → 10 ≤ n
    → str_onto (suc k) n s ≡ str_onto k (n / 10) (String.◌∷◌ (digit (n % 10)) s)
unfolding str_onto
str_onto_next k n s h = ground arith

code-digit : (n : ℕ) → n < 10 → code (digit n) ≡ 48 + n
unfolding digit
code-digit zero h = refl
code-digit (suc zero) h = refl
code-digit (suc (suc zero)) h = refl
code-digit (suc (suc (suc zero))) h = refl
code-digit (suc (suc (suc (suc zero)))) h = refl
code-digit (suc (suc (suc (suc (suc zero))))) h = refl
code-digit (suc (suc (suc (suc (suc (suc zero)))))) h = refl
code-digit (suc (suc (suc (suc (suc (suc (suc zero))))))) h = refl
code-digit (suc (suc (suc (suc (suc (suc (suc (suc zero)))))))) h = refl
code-digit (suc (suc (suc (suc (suc (suc (suc (suc (suc zero))))))))) h = refl
code-digit (suc (suc (suc (suc (suc (suc (suc (suc (suc (suc n)))))))))) h = absurd (omega arith)

not_below_zero : (n : ℕ) → leb 48 (48 + n) ≡ true
not_below_zero n = ground arith

not_above_nine : (n : ℕ) → n < 10 → leb (48 + n) 57 ≡ true
not_above_nine n h = ground (arith, h)

digits-digit :
    (m n : ℕ) (s : String) → n < 10 → digits m (String.◌∷◌ (digit n) s) ≡ digits (10 * m + n) s
unfolding digits
digits-digit m n s h =
    rw (code-digit n h, not_below_zero n, not_above_nine n h)
      (ap (λ k. digits (10 * m + k) s) (omega arith))

digits-str_onto : (k n : ℕ) (s : String) → n < k → digits 0 (str_onto k n s) ≡ digits n s
digits-str_onto zero n s h = absurd (omega arith)
digits-str_onto (suc k) n s h = elim (dec_lt n 10) [
  | yes lt ↦
      rw (str_onto_last k n s lt) (digits-digit 0 n s lt ∙ ap (λ d. digits d s) (omega arith))
  | no ge ↦ rw (str_onto_next k n s (omega arith)) (
      digits-str_onto k (n / 10) (String.◌∷◌ (digit (n % 10)) s) (omega arith)
      ∙ digits-digit (n / 10) (n % 10) s (omega arith)
      ∙ ap (λ d. digits d s) (omega arith))
]

-- No character of the text is a space.
unfoldable solid : String → Bool
solid String.[] = true
solid (String.◌∷◌ c s) = not (is_space c) && solid s

no_space : (k : ℕ) → 48 ≤ k → (k == 32 || (leb 9 k && leb k 13)) ≡ false
no_space k h = ground (arith, h)

digit-solid : (n : ℕ) (s : String) → n < 10 → solid s ≡ true → solid (String.◌∷◌ (digit n) s) ≡ true
unfolding solid
digit-solid n s h k = rw (code-digit n h, no_space (48 + n) (omega arith), k) refl

solid-str_onto : (k n : ℕ) (s : String) → solid s ≡ true → solid (str_onto k n s) ≡ true
unfolding str_onto
solid-str_onto zero n s h = h
solid-str_onto (suc k) n s h = elim (dec_lt n 10) [
  | yes lt ↦ rw (str_onto_last k n s lt) (digit-solid n s lt h)
  | no ge ↦ rw (str_onto_next k n s (omega arith)) (
      solid-str_onto k (n / 10) (String.◌∷◌ (digit (n % 10)) s)
        (digit-solid (n % 10) s (omega arith) h))
]

strip_left-solid : (s : String) → solid s ≡ true → strip_left s ≡ s
unfolding strip_left solid
strip_left-solid String.[] h = refl
strip_left-solid (String.◌∷◌ c s) h = ground (arith, h)

keep_front-solid : (c : Char) (s : String) → is_space c ≡ false → keep_front c s ≡ String.◌∷◌ c s
unfolding keep_front
keep_front-solid c String.[] h = ground (arith, h)
keep_front-solid c (String.◌∷◌ d s) h = refl

strip_right-solid : (s : String) → solid s ≡ true → strip_right s ≡ s
unfolding strip_right solid
strip_right-solid String.[] h = refl
strip_right-solid (String.◌∷◌ c s) h = ground (arith, h, strip_right-solid s, keep_front-solid c s)

strip-solid : (s : String) → solid s ≡ true → strip s ≡ s
unfolding strip
strip-solid s h = rw (strip_right-solid s h) (strip_left-solid s h)

is_empty-str_onto_after :
    (k n : ℕ) (s : String) → is_empty s ≡ false → is_empty (str_onto k n s) ≡ false
unfolding str_onto is_empty
is_empty-str_onto_after zero n s h = h
is_empty-str_onto_after (suc k) n s h = elim (dec_lt n 10) [
  | yes lt ↦ rw (str_onto_last k n s lt) refl
  | no ge ↦
      rw (str_onto_next k n s (omega arith))
        (is_empty-str_onto_after k (n / 10) (String.◌∷◌ (digit (n % 10)) s) refl)
]

is_empty-str : (n : ℕ) → is_empty (str n) ≡ false
unfolding str is_empty
is_empty-str n = elim (dec_lt n 10) [
  | yes lt ↦ rw (str_onto_last n n String.[] lt) refl
  | no ge ↦
      rw (str_onto_next n n String.[] (omega arith))
        (is_empty-str_onto_after n (n / 10) (String.◌∷◌ (digit (n % 10)) String.[]) refl)
]

-- The digits that `str` writes for a number are read by `int` as that number.
pub parse_int-str : (n : ℕ) → parse_int (str n) ≡ some n
unfolding parse_int str digits solid
parse_int-str n =
    rw (strip-solid (str n) (solid-str_onto (suc n) n String.[] refl), is_empty-str n)
      (digits-str_onto (suc n) n String.[] (omega arith))
