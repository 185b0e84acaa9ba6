-- ===== src/Raft/Matching/Merging.antt =====
-- What the loop over the entries of `handle_append_entries` (src/consensus/raft.py), and its truncation, do to
-- logs that match.
use distributed_sync_system.Base.{
  ℕ, zero, suc, ◌≡◌, ◌≢◌, refl, sym, ap, ◌∙◌, inl, inr, List, [], ◌∷◌, ◌++◌, arith, length, take,
  subst, take_of_length-le,
}
use distributed_sync_system.Raft.State.{LogEntry}
use distributed_sync_system.Raft.Merge.{merge, merge-nil, merge_empty}
use distributed_sync_system.Raft.Matching.{Apart, Forked}

module _ {C : Type 0} where
  Apart-merge :
      (g old new : List (LogEntry C)) → Apart g old → Apart g new → Apart g (merge old new)
  unfolding merge
  Apart-merge [] old new p q = tt
  Apart-merge (x ∷ g) [] new p q = q
  Apart-merge (x ∷ g) (o ∷ old) [] p q = p
  Apart-merge (x ∷ g) (o ∷ old) (e ∷ new) p q =
      ground (arith, p.0, q.0, Apart-merge g old new p.1 q.1)

  merge_same :
      (o e : LogEntry C) (old new : List (LogEntry C))
      → o.term ≡ e.term
      → merge (o ∷ old) (e ∷ new) ≡ o ∷ merge old new
  unfolding merge
  merge_same o e old new h = ground (arith, h)

  merge_other :
      (o e : LogEntry C) (old new : List (LogEntry C))
      → o.term ≢ e.term
      → merge (o ∷ old) (e ∷ new) ≡ e ∷ new
  unfolding merge
  merge_other o e old new h = ground (arith, h)

  -- The merged entries start with all the new ones, if the old match them.
  pub take-merge_new :
      (old new : List (LogEntry C)) → Forked old new → take (length new) (merge old new) ≡ new
  take-merge_new [] new f =
      ap (take (length new)) (merge_empty new) ∙ take_of_length-le (length new) new (omega arith)
  take-merge_new (o ∷ old) [] f = refl
  take-merge_new (o ∷ old) (e ∷ new) (inl (s, f)) =
      rw (merge_same o e old new (ap LogEntry.term s)) (cc (s, take-merge_new old new f))
  take-merge_new (o ∷ old) (e ∷ new) (inr (n, a)) =
      rw (merge_other o e old new n) (take_of_length-le (suc (length new)) (e ∷ new) (omega arith))

  -- Entries of one index and term in both: the old one stays.
  Forked-kept :
      (x : LogEntry C) (g : List (LogEntry C)) (o e : LogEntry C) (old new : List (LogEntry C))
      → o ≡ e
      → Forked (x ∷ g) (o ∷ old)
      → Forked (x ∷ g) (e ∷ new)
      → (Forked g old → Forked g new → Forked g (merge old new))
      → Forked (x ∷ g) (o ∷ merge old new)
  Forked-kept x g o e old new s (inl (u, p)) (inl (v, q)) h = inl (u, h p q)
  Forked-kept x g o e old new s (inl (u, p)) (inr (n, b)) h = absurd (n (cc (u, s)))
  Forked-kept x g o e old new s (inr (n, a)) (inl (v, q)) h = absurd (n (cc (v, s)))
  Forked-kept x g o e old new s (inr (n, a)) (inr (m, b)) h = inr (n, Apart-merge g old new a b)

  -- A third log that matches both still matches.
  pub Forked-merge :
      (g old new : List (LogEntry C))
      → Forked old new
      → Forked g old
      → Forked g new
      → Forked g (merge old new)
  Forked-merge [] old new f p q = tt
  Forked-merge (x ∷ g) [] new f p q = subst (Forked (x ∷ g)) (sym (merge_empty new)) q
  Forked-merge (x ∷ g) (o ∷ old) [] f p q = subst (Forked (x ∷ g)) (sym (merge-nil (o ∷ old))) p
  Forked-merge (x ∷ g) (o ∷ old) (e ∷ new) (inl (s, f)) p q =
      subst (Forked (x ∷ g)) (sym (merge_same o e old new (ap LogEntry.term s)))
        (Forked-kept x g o e old new s p q (λ a b. Forked-merge g old new f a b))
  Forked-merge (x ∷ g) (o ∷ old) (e ∷ new) (inr (n, a)) p q =
      subst (Forked (x ∷ g)) (sym (merge_other o e old new n)) q

  Apart-take : (g old : List (LogEntry C)) (k : ℕ) → Apart g old → Apart g (take k old)
  Apart-take [] old k a = tt
  Apart-take (x ∷ g) [] zero a = tt
  Apart-take (x ∷ g) [] (suc k) a = tt
  Apart-take (x ∷ g) (o ∷ old) zero a = tt
  Apart-take (x ∷ g) (o ∷ old) (suc k) (n, a) = (n, Apart-take g old k a)

  -- A truncation matches what the log matched.
  pub Forked-take : (g old : List (LogEntry C)) (k : ℕ) → Forked g old → Forked g (take k old)
  Forked-take [] old k f = tt
  Forked-take (x ∷ g) [] zero f = tt
  Forked-take (x ∷ g) [] (suc k) f = tt
  Forked-take (x ∷ g) (o ∷ old) zero f = tt
  Forked-take (x ∷ g) (o ∷ old) (suc k) (inl (s, f)) = inl (s, Forked-take g old k f)
  Forked-take (x ∷ g) (o ∷ old) (suc k) (inr (n, a)) = inr (n, Apart-take g old k a)

  -- What the logs have in common can be left out of the merge.
  pub append-merge :
      (pre old new : List (LogEntry C)) → pre ++ merge old new ≡ merge (pre ++ old) (pre ++ new)
  unfolding merge
  append-merge [] old new = refl
  append-merge (x ∷ pre) old new = ground (arith, append-merge pre old new)
