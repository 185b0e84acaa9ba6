-- ===== src/Ring/Points.antt =====
-- The points of the hash ring of src/nodes/queue_node.py: who answers for a position when one comes
-- or goes.
use distributed_sync_system.Base.{
  ℕ, ◌<◌, ◌≡◌, ◌≢◌, refl, ◌⊎◌, inl, inr, Option, none, some, List, [], ◌∷◌, String, length,
  get_elem?, ltb, ◌==◌, if◌then◌else◌, Error, Outcome, returned, raised, arith, Option-cases,
  Bool-cases,
}
use distributed_sync_system.Ring.Hashing.{
  node_at, set_node, delete_node, bisect_left, insort, remove_first, point_for,
}

-- The next point from a position on, and the first point of all.
next : ℕ → List ℕ → Option ℕ
next h [] = none
next h (p ∷ ps) = if ltb p h then next h ps else some p

first : List ℕ → Option ℕ
first [] = none
first (p ∷ ps) = some p

bisect_left-next :
    (h : ℕ) (ring : List ℕ)
    → (next h ring ≡ none) × (bisect_left h ring ≡ length ring)
      ⊎ (bisect_left h ring < length ring)
        × (get_elem? ring (bisect_left h ring) ≡ next h ring)
        × (p : ℕ) × (next h ring ≡ some p)
unfolding next bisect_left
bisect_left-next h [] = inl (refl, refl)
bisect_left-next h (p ∷ ps) = elim (Bool-cases (ltb p h)) [
  | inl e ↦ elim (bisect_left-next h ps) [
    | inl (n, l) ↦ inl (ground arith, ground arith)
    | inr (l, g, q, x) ↦ inr (ground arith, ground arith, q, ground arith)
  ]
  | inr e ↦ inr (ground arith, ground arith, p, ground arith)
]

point_for-next :
    (h : ℕ) (ring : List ℕ)
    → point_for h ring ≡ elim (next h ring) [ none ↦ first ring | some p ↦ some p ]
unfolding point_for first next
point_for-next h [] = refl
point_for-next h (p ∷ ps) = ground (arith, bisect_left-next h (p ∷ ps))

pub outcome_cases :
    (o : Outcome (Unit {0})) → ((x : Error) × (o ≡ raised x)) ⊎ ((x : Unit {0}) × (o ≡ returned x))
outcome_cases (raised x) = inl (x, refl)
outcome_cases (returned x) = inr (x, refl)

-- Removing another point.
next-remove_first :
    (h x : ℕ) (ring rest : List ℕ)
    → remove_first x ring ≡ some rest
    → (next h ring ≡ none → next h rest ≡ none)
      × ((q : ℕ) → x ≢ q → next h ring ≡ some q → next h rest ≡ some q)
unfolding next remove_first
next-remove_first h x [] rest e = absurd (cc)
next-remove_first h x (p ∷ ps) rest e = elim (Option-cases (remove_first x ps)) [
  | inl n ↦ ((λ a. ground arith), (λ q d a. ground arith))
  | inr (qs, n) ↦
      let (a, b) = next-remove_first h x ps qs n in
      ((λ c. ground arith), (λ q d c. ground (arith, b q d)))
]

first-remove_first :
    (x q : ℕ) (ring rest : List ℕ)
    → remove_first x ring ≡ some rest
    → x ≢ q
    → first ring ≡ some q
    → first rest ≡ some q
unfolding first remove_first
first-remove_first x q [] rest e d a = absurd (cc)
first-remove_first x q (p ∷ ps) rest e d a = ground arith

pub point_for-remove_first :
    (h x q : ℕ) (ring rest : List ℕ)
    → remove_first x ring ≡ some rest
    → x ≢ q
    → point_for h ring ≡ some q
    → point_for h rest ≡ some q
point_for-remove_first h x q ring rest e d a =
    let (none_stays, some_stays) = next-remove_first h x ring rest e in
    ground (
      arith,
      point_for-next h ring,
      point_for-next h rest,
      none_stays,
      some_stays q d,
      first-remove_first x q ring rest e d,
    )

-- Adding a point.
next-insort :
    (h x : ℕ) (ring : List ℕ)
    → (next h (insort x ring) ≡ next h ring) ⊎ (next h (insort x ring) ≡ some x)
unfolding next insort
next-insort h x [] = ground arith
next-insort h x (p ∷ ps) = ground (arith, next-insort h x ps)

first-insort :
    (x : ℕ) (ring : List ℕ)
    → (first (insort x ring) ≡ first ring) ⊎ (first (insort x ring) ≡ some x)
unfolding first insort
first-insort x [] = ground arith
first-insort x (p ∷ ps) = ground arith

pub point_for-insort :
    (h x : ℕ) (ring : List ℕ)
    → (point_for h (insort x ring) ≡ point_for h ring) ⊎ (point_for h (insort x ring) ≡ some x)
point_for-insort h x ring = ground (
  arith,
  point_for-next h ring,
  point_for-next h (insort x ring),
  next-insort h x ring,
  first-insort x ring,
)

pub node_at-set_node :
    (j h : ℕ) (v : String) (m : List (ℕ × String))
    → node_at j (set_node h v m) ≡ (if j == h then some v else node_at j m)
unfolding node_at set_node
node_at-set_node j h v [] = ground arith
node_at-set_node j h v ((k, w) ∷ m) = ground (arith, node_at-set_node j h v m)

pub node_at-delete_node :
    (j h : ℕ) (m : List (ℕ × String))
    → node_at j (delete_node h m) ≡ (if j == h then none else node_at j m)
unfolding node_at delete_node
node_at-delete_node j h [] = ground arith
node_at-delete_node j h ((k, w) ∷ m) = ground (arith, node_at-delete_node j h m)
