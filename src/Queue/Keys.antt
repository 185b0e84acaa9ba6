-- ===== src/Queue/Keys.antt =====
-- The keys of the queue in the store, and the splitting of texts by which `_check_and_redeliver` and
-- `_url_to_id` of src/nodes/queue_node.py read names out of them.
use Prim.Native.Char.{Char, code}
use Prim.Native.String.{◌++◌}
use Prim.Native.String.append
use mathlib.Core.Option.{some-injective}
use text.Mathlib.TextLemmas.{append_assoc, append_cancel_left}
use distributed_sync_system.Base.{
  ℕ, ◌==◌, ◌≡◌, refl, sym, ap, subst, ◌∙◌, inl, inr, All, Bool-cases, Option-cases, zero, suc, Bool,
  false, ◌||◌, ◌&&◌, none, some, List, [], ◌∷◌, String, get_elem?, arith, if◌then◌else◌, Outcome,
  returned, raised, index_error,
}

-- A character in front of the first piece.
unfoldable pub onto_first : Char → List String → List String
onto_first c [] = (String.◌∷◌ c String.[]) ∷ []
onto_first c (p ∷ ps) = (String.◌∷◌ c p) ∷ ps

-- `s.split(":")`
unfoldable pub split : String → List String
split String.[] = String.[] ∷ []
split (String.◌∷◌ c s) =
    let rest = split s in if code c == b':' then String.[] ∷ rest else onto_first c rest

unfoldable pub has_colon : String → Bool
has_colon String.[] = false
has_colon (String.◌∷◌ c s) = code c == b':' || has_colon s

unfoldable pub msg_key : String → String → String
msg_key queue message_id = "queue:" ++ (queue ++ (":msg:" ++ message_id))

unfoldable pub pending_key : String → String
pending_key queue = "queue:" ++ (queue ++ ":pending")

unfoldable pub in_flight_key : String → String
in_flight_key queue = "queue:" ++ (queue ++ ":in_flight")

-- `key.split(":")[1]`
unfoldable pub queue_of : String → Outcome String
queue_of key = elim (get_elem? (split key) 1) [ none ↦ raised index_error | some q ↦ returned q ]

-- `s.split("//")`
unfoldable pub split_slashes : String → List String
unfolding onto_first
split_slashes String.[] = String.[] ∷ []
split_slashes (String.◌∷◌ c String.[]) = (String.◌∷◌ c String.[]) ∷ []
split_slashes (String.◌∷◌ c (String.◌∷◌ d s)) =
    let here = split_slashes s in
    let later = split_slashes (String.◌∷◌ d s) in
    if code c == b'/' && code d == b'/' then String.[] ∷ here else onto_first c later

unfoldable pub last_piece : List String → String
last_piece [] = String.[]
last_piece (p ∷ []) = p
last_piece (p ∷ q ∷ ps) = last_piece (q ∷ ps)

unfoldable pub first_piece : List String → String
first_piece [] = String.[]
first_piece (p ∷ ps) = p

unfoldable pub url_to_id : String → String
unfolding split split_slashes last_piece first_piece
url_to_id url = first_piece (split (last_piece (split_slashes url)))

split-cons :
    (q : String) (c : Char) (s : String)
    → has_colon q ≡ false
    → code c ≡ b':'
    → split (q ++ (String.◌∷◌ c s)) ≡ q ∷ split s
unfolding split has_colon onto_first
split-cons String.[] c s h e = rw (append.nil (String.◌∷◌ c s)) (ground arith)
split-cons (String.◌∷◌ d q) c s h e =
    rw (append.cons d q (String.◌∷◌ c s)) (ground (arith, split-cons q c s))

split-append : (q s : String) → has_colon q ≡ false → split (q ++ (":" ++ s)) ≡ q ∷ split s
split-append q s h =
    subst (λ x. split (q ++ x) ≡ q ∷ split s)
      (sym (append.cons ":" "" s ∙ ap (String.◌∷◌ ":") (append.nil s))) (split-cons q ":" s h refl)

-- A name without a colon is read back from the key that is made of it.
pub queue_of-in_flight_key :
    (q : String) → has_colon q ≡ false → queue_of (in_flight_key q) ≡ returned q
unfolding queue_of in_flight_key has_colon
queue_of-in_flight_key q h =
    let first : split ("queue:" ++ (q ++ ":in_flight")) ≡ "queue" ∷ split (q ++ ":in_flight") =
      ap split (append_assoc "queue" ":" (q ++ ":in_flight"))
      ∙ split-append "queue" (q ++ ":in_flight") refl in
    let second : split (q ++ ":in_flight") ≡ q ∷ split "in_flight" = split-append q "in_flight" h in
    rw (first, queue_of) (rw (second, get_elem?) refl)

onto_first-some :
    (c : Char) (ps : List String) → (p : String) × (get_elem? (onto_first c ps) 0 ≡ some p)
unfolding onto_first
onto_first-some c [] = (String.◌∷◌ c String.[], refl)
onto_first-some c (p ∷ ps) = (String.◌∷◌ c p, refl)

split-some : (s : String) → (p : String) × (get_elem? (split s) 0 ≡ some p)
unfolding split
split-some String.[] = (String.[], refl)
split-some (String.◌∷◌ c s) = elim (Bool-cases (code c == b':')) [
  | inl e ↦ (String.[], rw e refl)
  | inr e ↦ rw e (onto_first-some c (split s))
]

-- Every key of the pattern has a second piece.
pub queue_of_some : (q : String) → (r : String) × (queue_of (in_flight_key q) ≡ returned r)
unfolding queue_of in_flight_key has_colon
queue_of_some q =
    let first : split ("queue:" ++ (q ++ ":in_flight")) ≡ "queue" ∷ split (q ++ ":in_flight") =
      ap split (append_assoc "queue" ":" (q ++ ":in_flight"))
      ∙ split-append "queue" (q ++ ":in_flight") refl in
    let (r, e) = split-some (q ++ ":in_flight") in
    (r, rw (first, queue_of) (rw (e, get_elem?) refl))

onto_first-Free :
    (c : Char) (ps : List String)
    → (code c == b':') ≡ false
    → All (λ p. has_colon p ≡ false) ps
    → All (λ p. has_colon p ≡ false) (onto_first c ps)
unfolding onto_first has_colon
onto_first-Free c [] h all = (ground arith, tt)
onto_first-Free c (p ∷ ps) h all = (ground (arith, all.0), all.1)

split-Free : (s : String) → All (λ p. has_colon p ≡ false) (split s)
unfolding split has_colon
split-Free String.[] = (refl, tt)
split-Free (String.◌∷◌ c s) = elim (Bool-cases (code c == b':')) [
  | inl e ↦ rw e (refl, split-Free s)
  | inr e ↦ rw e (onto_first-Free c (split s) e (split-Free s))
]

get_elem?-All :
    (P : String → Type 0) (xs : List String) (i : ℕ) (x : String)
    → All P xs
    → get_elem? xs i ≡ some x
    → P x
get_elem?-All P [] i x all h = absurd (cc)
get_elem?-All P (y ∷ ys) zero x all h = subst P (some-injective y x h) all.0
get_elem?-All P (y ∷ ys) (suc i) x all h = get_elem?-All P ys i x all.1 h

-- What is read out of a key has no colon.
pub queue_of-Free : (key q : String) → queue_of key ≡ returned q → has_colon q ≡ false
unfolding queue_of
queue_of-Free key q h = elim (Option-cases (get_elem? (split key) 1)) [
  | inl e ↦ absurd (ground arith)
  | inr (p, e) ↦
      let same : p ≡ q = ground arith in
      subst (λ x. has_colon x ≡ false) same
        (get_elem?-All (λ y. has_colon y ≡ false) (split key) 1 p (split-Free key) e)
]

-- Two messages in queues without a colon have different keys.
pub msg_key_inj :
    (q r i j : String)
    → has_colon q ≡ false
    → has_colon r ≡ false
    → msg_key q i ≡ msg_key r j
    → (q ≡ r) × (i ≡ j)
unfolding msg_key
msg_key_inj q r i j hq hr e =
    let tails = append_cancel_left "queue:" (q ++ (":msg:" ++ i)) (r ++ (":msg:" ++ j)) e in
    let pieces : q ∷ split ("msg:" ++ i) ≡ r ∷ split ("msg:" ++ j) =
      sym (split-append q ("msg:" ++ i) hq)
      ∙ ap (λ x. split (q ++ x)) (sym (append_assoc ":" "msg:" i))
      ∙ ap split tails
      ∙ ap (λ x. split (r ++ x)) (append_assoc ":" "msg:" j)
      ∙ split-append r ("msg:" ++ j) hr in
    let same : q ≡ r = cc pieces in
    let rest = subst (λ x. x ++ (":msg:" ++ i) ≡ r ++ (":msg:" ++ j)) same tails in
    (same, append_cancel_left ":msg:" i j (append_cancel_left r (":msg:" ++ i) (":msg:" ++ j) rest))
