-- ===== src/Config/Words.antt =====
-- The text functions of Python that src/utils/config.py uses on the environment: `split(",")`,
-- `strip` and the test for an empty text.
use Prim.Native.Char.{Char, code}
use distributed_sync_system.Base.{
  ◌==◌, leb, Bool, true, false, ◌&&◌, ◌||◌, List, [], ◌∷◌, String, if◌then◌else◌,
}

abbrev pub is_comma : Char → Bool
is_comma c = code c == b','

-- The ASCII spaces of `str.strip`.
abbrev pub is_space : Char → Bool
is_space c = code c == 32 || (leb 9 (code c) && leb (code c) 13)

unfoldable pub before_first : Char → List String → List String
before_first c [] = (String.◌∷◌ c String.[]) ∷ []
before_first c (p ∷ ps) = (String.◌∷◌ c p) ∷ ps

-- `s.split(",")`
unfoldable pub split_commas : String → List String
unfolding before_first
split_commas String.[] = String.[] ∷ []
split_commas (String.◌∷◌ c s) =
    let rest = split_commas s in if is_comma c then String.[] ∷ rest else before_first c rest

unfoldable pub strip_left : String → String
strip_left String.[] = String.[]
strip_left (String.◌∷◌ c s) = let rest = strip_left s in if is_space c then rest else String.◌∷◌ c s

-- A character in front of a text whose spaces at the end are gone.
unfoldable pub keep_front : Char → String → String
keep_front c String.[] = if is_space c then String.[] else String.◌∷◌ c String.[]
keep_front c (String.◌∷◌ d s) = String.◌∷◌ c (String.◌∷◌ d s)

unfoldable pub strip_right : String → String
unfolding keep_front
strip_right String.[] = String.[]
strip_right (String.◌∷◌ c s) = keep_front c (strip_right s)

-- `s.strip()`
unfoldable pub strip : String → String
unfolding strip_left strip_right
strip s = strip_left (strip_right s)

unfoldable pub is_empty : String → Bool
is_empty String.[] = true
is_empty (String.◌∷◌ c s) = false

-- `[p.strip() for p in ps if p.strip()]`
unfoldable pub stripped : List String → List String
unfolding strip is_empty
stripped [] = []
stripped (p ∷ ps) = let rest = stripped ps in if is_empty (strip p) then rest else strip p ∷ rest

unfoldable pub parse_peers : String → List String
unfolding stripped split_commas
parse_peers s = stripped (split_commas s)
