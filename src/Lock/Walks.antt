-- ===== src/Lock/Walks.antt =====
-- What the search for cycles of src/nodes/lock_manager.py finds: walks of the wait-for graph that
-- come back to where they start.
use distributed_sync_system.Base.{
  ℕ, zero, suc, ◌≡◌, refl, true, Option, some, List, [], ◌∷◌, ◌++◌, String, Dict, ite, str_dec, ◌⊎◌,
  inl, inr, subst, lookup_or, contains, add, contains-add, contains-discard, length, All, arith,
  Bool-cases, Option-cases, discard,
}
use distributed_sync_system.Lock.Cycles.{
  Search, from_client, visit_all, dfs, search_from, keys, clients, find_cycles,
}

nothing : (x : String) → contains x [] ≡ true → ⊥
unfolding contains
nothing x c = cc

module _ (graph : Dict (List String)) where
  -- The client `x` waits for `y`.
  abbrev pub Waits : String → String → Type 0
  Waits x y = contains y (lookup_or x [] graph) ≡ true

  -- Each client of the list waits for the next one.
  abbrev pub Walk : List String → Type 0
  Walk [] = Unit {0}
  Walk (x ∷ []) = Unit {0}
  Walk (x ∷ y ∷ path) = Waits x y × Walk (y ∷ path)

  -- The last client of the list waits for the given one.
  abbrev pub Ends : String → List String → Type 0
  Ends z [] = ⊥
  Ends z (x ∷ []) = Waits x z
  Ends z (x ∷ y ∷ path) = Ends z (y ∷ path)

  -- A walk whose last client waits for its first.
  abbrev pub IsCycle : List String → Type 0
  IsCycle [] = ⊥
  IsCycle (x ∷ path) = Walk (x ∷ path) × Ends x (x ∷ path)

  Walk-snoc :
      (path : List String) (node : String)
      → Walk path
      → (path ≡ []) ⊎ Ends node path
      → Walk (path ++ node ∷ [])
  Walk-snoc [] node w e = tt
  Walk-snoc (x ∷ []) node w (inl e) = absurd (cc)
  Walk-snoc (x ∷ []) node w (inr e) = (e, tt)
  Walk-snoc (x ∷ y ∷ path) node w (inl e) = absurd (cc)
  Walk-snoc (x ∷ y ∷ path) node w (inr e) = (w.0, Walk-snoc (y ∷ path) node w.1 (inr e))

  Ends-snoc : (path : List String) (node z : String) → Waits node z → Ends z (path ++ node ∷ [])
  Ends-snoc [] node z w = w
  Ends-snoc (x ∷ []) node z w = w
  Ends-snoc (x ∷ y ∷ path) node z w = Ends-snoc (y ∷ path) node z w

  from_client-IsCycle :
      (x : String) (path : List String)
      → Walk path
      → Ends x path
      → contains x path ≡ true
      → IsCycle (from_client x path)
  unfolding from_client contains
  from_client-IsCycle x [] w e c = absurd (cc)
  from_client-IsCycle x (y ∷ []) w e c = elim (str_dec x y) [
    | yes q ↦ ground arith
    | no q ↦ absurd (ground arith)
  ]
  from_client-IsCycle x (y ∷ z ∷ path) w e c = elim (str_dec x y) [
    | yes q ↦ ground arith
    | no q ↦ ground (arith, from_client-IsCycle x (z ∷ path))
  ]

  -- The cycles that were found are cycles, and the clients in `rec` are on the path.
  abbrev Sound : List String → Search → Type 0
  Sound path s =
      All IsCycle s.cycles × ((x : String) → contains x s.rec ≡ true → contains x path ≡ true)

  All-snoc :
      (cs : List (List String)) (c : List String)
      → All IsCycle cs
      → IsCycle c
      → All IsCycle (cs ++ c ∷ [])
  All-snoc [] c a i = (i, tt)
  All-snoc (d ∷ cs) c a i = (a.0, All-snoc cs c a.1 i)

  visit_all-Sound :
      (go : String → Search → Option Search) (path nbs : List String) (s t : Search)
      → ((nb : String) (s t : Search)
          → Ends nb path
          → Sound path s
          → go nb s ≡ some t
          → Sound path t)
      → Walk path
      → All (λ nb. Ends nb path) nbs
      → Sound path s
      → visit_all go path nbs s ≡ some t
      → Sound path t
  unfolding visit_all
  visit_all-Sound go path [] s t h w a i q = let e : s ≡ t = cc in subst (λ u. Sound path u) e i
  visit_all-Sound go path (nb ∷ nbs) s t h w a i q = elim (Bool-cases (contains nb s.visited)) [
    | inl e ↦ elim (Bool-cases (contains nb s.rec)) [
      | inl r ↦
          let s' : Search = record s { cycles = s.cycles ++ from_client nb path ∷ [] } in
          visit_all-Sound go path nbs s' t h w a.1
            (
              All-snoc s.cycles (from_client nb path) i.0
                  (from_client-IsCycle nb path w a.0 (i.1 nb r)),
              i.1,
            )
            (ground arith)
      | inr r ↦ visit_all-Sound go path nbs s t h w a.1 i (ground arith)
    ]
    | inr e ↦ elim (Option-cases (go nb s)) [
      | inl n ↦ absurd (ground arith)
      | inr (s', n) ↦ visit_all-Sound go path nbs s' t h w a.1 (h nb s s' a.0 i n) (ground arith)
    ]
  ]

  Ends-of_Waits :
      (path nbs : List String) (node : String)
      → ((x : String) → contains x nbs ≡ true → Waits node x)
      → All (λ nb. Ends nb (path ++ node ∷ [])) nbs
  unfolding contains
  Ends-of_Waits path [] node h = tt
  Ends-of_Waits path (nb ∷ nbs) node h = (
    Ends-snoc path node nb (h nb (ground arith)),
    Ends-of_Waits path nbs node (λ x c. h x (ground arith)),
  )

  contains-snoc :
      (x node : String) (path : List String)
      → contains x (path ++ node ∷ []) ≡ ite (str_dec x node) true (contains x path)
  unfolding contains
  contains-snoc x node [] = refl
  contains-snoc x node (y ∷ path) = ground (arith, contains-snoc x node path)

  entered-Sound :
      (path : List String) (node : String) (s : Search)
      → Sound path s
      → Sound (path ++ node ∷ []) (record s { visited = add node s.visited; rec = add node s.rec })
  entered-Sound path node s i =
      (i.0, λ x c. ground (arith, i.1 x, contains-add x node s.rec, contains-snoc x node path))

  left-Sound :
      (path : List String) (node : String) (s : Search)
      → Sound (path ++ node ∷ []) s
      → Sound path (record s { rec = discard node s.rec })
  left-Sound path node s i =
      (i.0, λ x c. ground (arith, i.1 x, contains-discard x node s.rec, contains-snoc x node path))

  dfs-Sound :
      (fuel : ℕ) (path : List String) (node : String) (s t : Search)
      → Walk path
      → (path ≡ []) ⊎ Ends node path
      → Sound path s
      → dfs graph fuel path node s ≡ some t
      → Sound path t
  unfolding dfs
  dfs-Sound zero path node s t w e i q = absurd (cc)
  dfs-Sound (suc fuel) path node s t w e i q =
      let path' = path ++ node ∷ [] in
      let entered : Search = record s { visited = add node s.visited; rec = add node s.rec } in
      let went = visit_all (dfs graph fuel path') path' (lookup_or node [] graph) entered in
      elim (Option-cases went) [
        | inl n ↦ absurd (ground arith)
        | inr (u, n) ↦
            let inner =
              visit_all-Sound (dfs graph fuel path') path' (lookup_or node [] graph) entered u
                (λ nb s t last j r.
                  dfs-Sound fuel path' nb s t (Walk-snoc path node w e) (inr last) j r)
                (Walk-snoc path node w e)
                (Ends-of_Waits path (lookup_or node [] graph) node (λ x c. c))
                (entered-Sound path node s i) n in
            let r : record u { rec = discard node u.rec } ≡ t = ground arith in
            subst (λ v. Sound path v) r (left-Sound path node u inner)
      ]

  search_from-Sound :
      (fuel : ℕ) (cs : List String) (s t : Search)
      → Sound [] s
      → search_from graph fuel cs s ≡ some t
      → Sound [] t
  unfolding search_from
  search_from-Sound fuel [] s t i q = let e : s ≡ t = cc in subst (λ u. Sound [] u) e i
  search_from-Sound fuel (c ∷ cs) s t i q = elim (Bool-cases (contains c s.visited)) [
    | inl e ↦ search_from-Sound fuel cs s t i (ground arith)
    | inr e ↦ elim (Option-cases (dfs graph fuel [] c s)) [
      | inl n ↦ absurd (ground arith)
      | inr (u, n) ↦
          search_from-Sound fuel cs u t (dfs-Sound fuel [] c s u tt (inl refl) i n) (ground arith)
    ]
  ]

-- Every list of clients that the search returns is a cycle of the wait-for graph: each waits for the
-- next, and the last for the first.
pub find_cycles-IsCycle :
    (graph : Dict (List String)) (cs : List (List String))
    → find_cycles graph ≡ some cs
    → All (IsCycle graph) cs
unfolding find_cycles
find_cycles-IsCycle graph cs q =
    let fuel = suc (length (clients graph)) in
    let start : Search = record { visited = []; rec = []; cycles = [] } in
    elim (Option-cases (search_from graph fuel (keys graph) start)) [
      | inl n ↦ absurd (ground arith)
      | inr (t, n) ↦
          let e : t.cycles ≡ cs = ground arith in
          subst (λ l. All (IsCycle graph) l) e
            (search_from-Sound graph fuel (keys graph) start t (tt, λ x c. absurd (nothing x c))
              n).0
    ]
