-- ===== src/Raft/Merge.antt =====
-- What the loop over the entries of `handle_append_entries` (src/consensus/raft.py) does to the
-- log, against a description with no index in it.
use mathlib.Core.List.{append_assoc, append-nil}
use distributed_sync_system.Base.{
  ℕ, zero, suc, ◌≤◌, ◌≡◌, refl, ap, some, List, [], ◌∷◌, ◌++◌, pos, arith, if◌then◌else◌, ◌==◌,
  length, take, drop, get_elem?, map, +ℤ-pos_one, length-append, take-append-drop, length-take,
  returned,
}
use distributed_sync_system.Raft.State.{LogEntry}
use distributed_sync_system.Raft.Append.{place, append_entries}

module _ {C : Type 0} where
  -- The old entries and the new, from the first index of the new: an old entry stays while its term
  -- is that of the new one at its place, and the first that differs goes with all behind it.
  unfoldable pub merge : List (LogEntry C) → List (LogEntry C) → List (LogEntry C)
  merge [] new = new
  merge (o ∷ old) [] = o ∷ old
  merge (o ∷ old) (e ∷ new) =
      let rest = merge old new in if o.term == e.term then o ∷ rest else e ∷ new

  pub merge-nil : (old : List (LogEntry C)) → merge old [] ≡ old
  unfolding merge
  merge-nil [] = refl
  merge-nil (o ∷ old) = refl

  pub merge_empty : (new : List (LogEntry C)) → merge [] new ≡ new
  unfolding merge
  merge_empty new = refl

  place_end :
      (pre : List (LogEntry C)) (e : LogEntry C)
      → place (pos (length pre)) e pre ≡ some (pre ++ e ∷ [])
  unfolding place
  place_end pre e = ground arith

module _ {ℓ} {A : Type ℓ} where
  get_elem?-append_length :
      (pre : List A) (o : A) (os : List A) → get_elem? (pre ++ o ∷ os) (length pre) ≡ some o
  get_elem?-append_length [] o os = refl
  get_elem?-append_length (p ∷ pre) o os = get_elem?-append_length pre o os

  take-append_length : (pre os : List A) → take (length pre) (pre ++ os) ≡ pre
  take-append_length [] os = refl
  take-append_length (p ∷ pre) os = ap (◌∷◌ p) (take-append_length pre os)

  length-snoc : (pre : List A) (o : A) → length (pre ++ o ∷ []) ≡ suc (length pre)
  length-snoc [] o = refl
  length-snoc (p ∷ pre) o = ap suc (length-snoc pre o)

module _ {C : Type 0} where
  place_at :
      (pre : List (LogEntry C)) (e o : LogEntry C) (os : List (LogEntry C))
      → place (pos (length pre)) e (pre ++ o ∷ os)
        ≡ some (if o.term == e.term then pre ++ o ∷ os else pre ++ e ∷ [])
  unfolding place
  place_at pre e o os = ground (
    arith,
    get_elem?-append_length pre o os,
    take-append_length pre (o ∷ os),
    length-append pre (o ∷ os),
  )

  -- The loop after a prefix of the log.
  append_entries-append :
      (pre old new : List (LogEntry C))
      → append_entries (pos (length pre)) new (pre ++ old) ≡ (pre ++ merge old new, returned tt)
  unfolding append_entries merge
  append_entries-append pre old [] = rw (merge-nil old) refl
  append_entries-append pre [] (e ∷ new) = ground (
    arith,
    append-nil pre,
    append-nil (pre ++ e ∷ []),
    place_end pre e,
    +ℤ-pos_one (length pre),
    length-snoc pre e,
    append_assoc pre (e ∷ []) new,
    append_entries-append (pre ++ e ∷ []) [] new,
  )
  append_entries-append pre (o ∷ old) (e ∷ new) = ground (
    arith,
    place_at pre e o old,
    +ℤ-pos_one (length pre),
    length-snoc pre e,
    length-snoc pre o,
    append-nil (pre ++ e ∷ []),
    append_assoc pre (e ∷ []) new,
    append_assoc pre (o ∷ []) old,
    append_assoc pre (o ∷ []) (merge old new),
    append_entries-append (pre ++ e ∷ []) [] new,
    append_entries-append (pre ++ o ∷ []) old new,
  )

  -- From an index within the log, the loop ends without an exception; it keeps the log below that
  -- index and merges the rest with the entries.
  pub append_entries-merge :
      (k : ℕ) (new log : List (LogEntry C))
      → k ≤ length log
      → append_entries (pos k) new log ≡ (take k log ++ merge (drop k log) new, returned tt)
  append_entries-merge k new log h = ground (
    arith,
    append_entries-append (take k log) (drop k log) new,
    take-append-drop k log,
    length-take k log,
  )

  -- Whatever was there, the entries' terms stand at their places afterwards.
  pub merge-terms :
      (old new : List (LogEntry C))
      → map (λ e. e.term) (take (length new) (merge old new)) ≡ map (λ e. e.term) new
  unfolding merge
  merge-terms [] [] = refl
  merge-terms (o ∷ old) [] = refl
  merge-terms [] (e ∷ new) = ap (◌∷◌ e.term) (merge-terms [] new)
  merge-terms (o ∷ old) (e ∷ new) =
      ground (arith, merge-terms old new, merge-terms [] new, merge_empty new)

  -- A retry of the same entries changes nothing.
  pub merge_idem : (old new : List (LogEntry C)) → merge (merge old new) new ≡ merge old new
  unfolding merge
  merge_idem [] [] = refl
  merge_idem (o ∷ old) [] = refl
  merge_idem [] (e ∷ new) = ground (arith, merge_idem [] new)
  merge_idem (o ∷ old) (e ∷ new) =
      ground (arith, merge_idem old new, merge_idem [] new, merge_empty new)

  pub length-merge : (old new : List (LogEntry C)) → length new ≤ length (merge old new)
  unfolding merge
  length-merge [] new = omega arith
  length-merge (o ∷ old) [] = omega arith
  length-merge (o ∷ old) (e ∷ new) = ground (arith, length-merge old new)

  -- The first `c` of the old entries have the terms of the new ones at their places.
  abbrev pub Agrees : ℕ → List (LogEntry C) → List (LogEntry C) → Type 0
  Agrees zero old new = Unit {0}
  Agrees (suc c) [] new = Unit {0}
  Agrees (suc c) (o ∷ old) [] = Unit {0}
  Agrees (suc c) (o ∷ old) (e ∷ new) = (o.term ≡ e.term) × Agrees c old new

  -- Entries that agree with the first `c` old ones leave those as they are.
  pub take-merge :
      (c : ℕ) (old new : List (LogEntry C))
      → c ≤ length old
      → Agrees c old new
      → take c (merge old new) ≡ take c old
  unfolding merge
  take-merge zero old new h a = refl
  take-merge (suc c) [] new h a = absurd (omega arith)
  take-merge (suc c) (o ∷ old) [] h a = refl
  take-merge (suc c) (o ∷ old) (e ∷ new) h a = ground (arith, take-merge c old new)
