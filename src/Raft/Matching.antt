-- ===== src/Raft/Matching.antt =====
-- The Log Matching of Raft, for the logs of src/consensus/raft.py, as a property of the indices and as one by
-- recursion on both logs.
pub mod Merging
pub mod Handler
pub mod Events
pub mod Cluster
pub mod Runs
mod Tests
use distributed_sync_system.Base.{
  ℕ, zero, suc, ◌≡◌, ◌≢◌, refl, sym, ap, ◌∙◌, ◌⊎◌, inl, inr, some, List, [], ◌∷◌, ◌++◌, arith,
  ℕ_discrete, if◌then◌else◌, ◌==◌, length, take, drop, get_elem?, take-append-drop, Bool, true,
  false,
}
use distributed_sync_system.Raft.State.{LogEntry}

module _ {C : Type 0} where
  -- Where two logs have entries of one term at one index, they are the same up to and with this index.
  abbrev pub LogsMatch : List (LogEntry C) → List (LogEntry C) → Type 0
  LogsMatch a b =
      (i : ℕ) (x y : LogEntry C)
      → get_elem? a i ≡ some x
      → get_elem? b i ≡ some y
      → x.term ≡ y.term
      → take (suc i) a ≡ take (suc i) b

  -- No index has the same term in both.
  abbrev pub Apart : List (LogEntry C) → List (LogEntry C) → Type 0
  Apart [] b = Unit {0}
  Apart (x ∷ a) [] = Unit {0}
  Apart (x ∷ a) (y ∷ b) = (x.term ≢ y.term) × Apart a b

  -- A common start, and apart from there on.
  abbrev pub Forked : List (LogEntry C) → List (LogEntry C) → Type 0
  Forked [] b = Unit {0}
  Forked (x ∷ a) [] = Unit {0}
  Forked (x ∷ a) (y ∷ b) = ((x ≡ y) × Forked a b) ⊎ ((x.term ≢ y.term) × Apart a b)

  Apart-get :
      (a b : List (LogEntry C)) (i : ℕ) (x y : LogEntry C)
      → Apart a b
      → get_elem? a i ≡ some x
      → get_elem? b i ≡ some y
      → x.term ≢ y.term
  Apart-get [] b i x y h p q = absurd (cc p)
  Apart-get (c ∷ a) [] i x y h p q = absurd (cc q)
  Apart-get (c ∷ a) (d ∷ b) zero x y h p q = λ e. h.0 (cc (p, q, e))
  Apart-get (c ∷ a) (d ∷ b) (suc i) x y h p q = Apart-get a b i x y h.1 p q

  pub Forked-LogsMatch : (a b : List (LogEntry C)) → Forked a b → LogsMatch a b
  Forked-LogsMatch [] b h i x y p q e = absurd (cc p)
  Forked-LogsMatch (c ∷ a) [] h i x y p q e = absurd (cc q)
  Forked-LogsMatch (c ∷ a) (d ∷ b) (inl (s, h)) zero x y p q e = ap (λ z. z ∷ []) s
  Forked-LogsMatch (c ∷ a) (d ∷ b) (inl (s, h)) (suc i) x y p q e =
      cc (s, Forked-LogsMatch a b h i x y p q e)
  Forked-LogsMatch (c ∷ a) (d ∷ b) (inr h) i x y p q e =
      absurd (Apart-get (c ∷ a) (d ∷ b) i x y h p q e)

  Apart-intro :
      (a b : List (LogEntry C))
      → ((i : ℕ) (x y : LogEntry C)
          → get_elem? a i ≡ some x
          → get_elem? b i ≡ some y
          → x.term ≢ y.term)
      → Apart a b
  Apart-intro [] b h = tt
  Apart-intro (c ∷ a) [] h = tt
  Apart-intro (c ∷ a) (d ∷ b) h =
      (h 0 c d refl refl, Apart-intro a b (λ i x y p q. h (suc i) x y p q))

  pub LogsMatch-Forked : (a b : List (LogEntry C)) → LogsMatch a b → Forked a b
  LogsMatch-Forked [] b h = tt
  LogsMatch-Forked (c ∷ a) [] h = tt
  LogsMatch-Forked (c ∷ a) (d ∷ b) h = elim (ℕ_discrete c.term d.term) [
    | yes e ↦
        inl
          (cc (h 0 c d refl refl e), LogsMatch-Forked a b (λ i x y p q s. cc (h (suc i) x y p q s)))
    | no n ↦ inr (n, Apart-intro a b (λ i x y p q s. n (cc (h (suc i) x y p q s))))
  ]
