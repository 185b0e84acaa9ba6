-- ===== src/Config/Peers.antt =====
-- The list of peers that src/utils/config.py reads.

use Prim.Native.String.{◌++◌}
use Prim.Native.String.append
use distributed_sync_system.Base.{
  ◌≡◌, refl, ap, ◌∙◌, Bool, true, false, not, ◌&&◌, List, [], ◌∷◌, String, All, arith,
}
use distributed_sync_system.Config.Words.{
  is_comma, is_space, before_first, split_commas, strip_left, keep_front, strip_right, strip,
  is_empty, stripped, parse_peers,
}

-- No comma is in the text.
unfoldable pub no_comma : String → Bool
no_comma String.[] = true
no_comma (String.◌∷◌ c s) = not (is_comma c) && no_comma s

unfoldable pub starts_plain : String → Bool
starts_plain String.[] = false
starts_plain (String.◌∷◌ c s) = not (is_space c)

unfoldable pub ends_plain : String → Bool
ends_plain String.[] = false
ends_plain (String.◌∷◌ c String.[]) = not (is_space c)
ends_plain (String.◌∷◌ c (String.◌∷◌ d s)) = ends_plain (String.◌∷◌ d s)

-- A peer without a comma and without a space at its ends, which is not empty.
pub record IsPeer (p : String) : Type 0 where
  pub whole : no_comma p ≡ true
  pub first : starts_plain p ≡ true
  pub last : ends_plain p ≡ true

-- `",".join(ps)`
unfoldable pub join_commas : List String → String
join_commas [] = String.[]
join_commas (p ∷ []) = p
join_commas (p ∷ q ∷ ps) = p ++ (String.◌∷◌ "," (join_commas (q ∷ ps)))

split_whole : (p : String) → no_comma p ≡ true → split_commas p ≡ p ∷ []
unfolding split_commas no_comma before_first
split_whole String.[] h = refl
split_whole (String.◌∷◌ c s) h = ground (arith, h, split_whole s)

split-append :
    (p s : String) → no_comma p ≡ true → split_commas (p ++ (String.◌∷◌ "," s)) ≡ p ∷ split_commas s
unfolding split_commas no_comma before_first
split-append String.[] s h = rw (append.nil (String.◌∷◌ "," s)) refl
split-append (String.◌∷◌ c p) s h =
    rw (append.cons c p (String.◌∷◌ "," s)) (ground (arith, h, split-append p s))

split-join :
    (p : String) (ps : List String)
    → All IsPeer (p ∷ ps)
    → split_commas (join_commas (p ∷ ps)) ≡ p ∷ ps
unfolding join_commas
split-join p [] all = split_whole p all.0.whole
split-join p (q ∷ ps) all =
    split-append p (join_commas (q ∷ ps)) all.0.whole ∙ ap (◌∷◌ p) (split-join q ps all.1)

strip_right_plain : (p : String) → ends_plain p ≡ true → strip_right p ≡ p
unfolding strip_right keep_front ends_plain
strip_right_plain String.[] h = refl
strip_right_plain (String.◌∷◌ c String.[]) h = ground (arith, h)
strip_right_plain (String.◌∷◌ c (String.◌∷◌ d s)) h =
    rw (strip_right_plain (String.◌∷◌ d s) h, keep_front) refl

strip_left_plain : (p : String) → starts_plain p ≡ true → strip_left p ≡ p
unfolding strip_left starts_plain
strip_left_plain String.[] h = refl
strip_left_plain (String.◌∷◌ c s) h = ground (arith, h)

strip_plain : (p : String) → IsPeer p → strip p ≡ p
unfolding strip
strip_plain p v = rw (strip_right_plain p v.last) (strip_left_plain p v.first)

plain-is_empty : (p : String) → starts_plain p ≡ true → is_empty p ≡ false
unfolding starts_plain is_empty
plain-is_empty String.[] h = ground (arith, h)
plain-is_empty (String.◌∷◌ c s) h = refl

stripped_plain : (ps : List String) → All IsPeer ps → stripped ps ≡ ps
unfolding stripped
stripped_plain [] all = refl
stripped_plain (p ∷ ps) all =
    rw (strip_plain p all.0, plain-is_empty p all.0.first, stripped_plain ps all.1) refl

-- The peers of a text that joins peers by commas are these peers, in their order, if each is a text
-- without a comma that neither starts nor ends with a space and is not empty.
pub parse_peers-join_commas :
    (p : String) (ps : List String)
    → All IsPeer (p ∷ ps)
    → parse_peers (join_commas (p ∷ ps)) ≡ p ∷ ps
unfolding parse_peers
parse_peers-join_commas p ps all = rw (split-join p ps all) (stripped_plain (p ∷ ps) all)
