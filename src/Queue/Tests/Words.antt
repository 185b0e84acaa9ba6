-- ===== src/Queue/Tests/Words.antt =====
-- A codec for the tests: a letter for the type, and the number in unary.
use Prim.Native.Char.{code}
use distributed_sync_system.Base.{
  ℕ, zero, suc, ◌==◌, ◌≡◌, refl, Option, none, some, String, if◌then◌else◌,
}
use distributed_sync_system.Queue.Message.{
  MessageStatus, pending, in_flight, completed, failed, value_of, Value, integer, real, structure,
  Codec,
}

abbrev pub unary : ℕ → String
unary zero = String.[]
unary (suc n) = String.◌∷◌ "i" (unary n)

abbrev pub from_unary : String → Option ℕ
from_unary String.[] = some 0
from_unary (String.◌∷◌ c s) =
    let rest = from_unary s in
    if code c == b'i' then elim rest [ none ↦ none | some n ↦ some (suc n) ] else none

pub from_unary-unary : (n : ℕ) → from_unary (unary n) ≡ some n
from_unary-unary zero = refl
from_unary-unary (suc n) = rw (from_unary-unary n) refl

abbrev pub read_word : String → Option (Value ℕ)
read_word String.[] = none
read_word (String.◌∷◌ c s) = elim (from_unary s) [
  | none ↦ none
  | some n ↦
      if code c == b'+'
      then some (integer n)
      else if code c == b'~'
      then some (real n)
      else if code c == b'{'
      then some (structure n)
      else none
]

pub read_integer : (n : ℕ) → read_word (String.◌∷◌ "+" (unary n)) ≡ some (integer n)
read_integer n = rw (from_unary-unary n, read_word) refl

pub read_real : (n : ℕ) → read_word (String.◌∷◌ "~" (unary n)) ≡ some (real n)
read_real n = rw (from_unary-unary n, read_word) refl

pub read_structure : (n : ℕ) → read_word (String.◌∷◌ "{" (unary n)) ≡ some (structure n)
read_structure n = rw (from_unary-unary n, read_word) refl

pub read_status : (s : MessageStatus) → read_word (value_of s) ≡ none
unfolding value_of
read_status pending = refl
read_status in_flight = refl
read_status completed = refl
read_status failed = refl

abbrev pub words : Codec ℕ
words = record {
  dumps = λ n. String.◌∷◌ "{" (unary n);
  loads = read_word;
  str_structure = λ n. String.◌∷◌ "{" (unary n);
  str_integer = λ n. String.◌∷◌ "+" (unary n);
  str_real = λ n. String.◌∷◌ "~" (unary n);
  int_of = λ s. none;
  float_of = λ s. none;
  loads-dumps = read_structure;
  loads-str_integer = read_integer;
  loads-str_real = read_real;
  loads-status = read_status;
  int_of-status = λ s. refl;
  float_of-status = λ s. refl;
}
