-- ===== src/Lock/Ending.antt =====
-- The search for cycles of src/nodes/lock_manager.py comes to an end: the fuel that the model gives to
-- it is enough for every wait-for graph.

use distributed_sync_system.Base.{
  ℕ, zero, suc, ◌+◌, ◌≤◌, ◌<◌, ◌≡◌, refl, true, false, Option, some, List, [], ◌∷◌, ◌++◌, String,
  Dict, lookup, lookup_or, contains, add, contains-add, length, All, arith, if◌then◌else◌,
  Bool-cases, inl, inr, discard,
}
use distributed_sync_system.Lock.State.{LockManager}
use distributed_sync_system.Lock.Deadlock.{detect, resolve_all}
use distributed_sync_system.Lock.Cycles.{
  Search, visit_all, dfs, search_from, keys, clients, find_cycles,
}

-- How many of the clients were not visited.
unseen : List String → List String → ℕ
unseen [] seen = 0
unseen (x ∷ xs) seen = (if contains x seen then 0 else 1) + unseen xs seen

unseen_le : (xs seen : List String) → unseen xs seen ≤ length xs
unfolding unseen
unseen_le [] seen = omega arith
unseen_le (x ∷ xs) seen = ground (arith, unseen_le xs seen)

unseen-add : (v : String) (xs seen : List String) → unseen xs (add v seen) ≤ unseen xs seen
unfolding unseen
unseen-add v [] seen = omega arith
unseen-add v (x ∷ xs) seen = ground (arith, unseen-add v xs seen, contains-add x v seen)

unseen-add_new :
    (v : String) (xs seen : List String)
    → contains v xs ≡ true
    → contains v seen ≡ false
    → unseen xs (add v seen) < unseen xs seen
unfolding unseen contains
unseen-add_new v [] seen m n = absurd (cc)
unseen-add_new v (x ∷ xs) seen m n =
    ground (arith, unseen-add v xs seen, unseen-add_new v xs seen, contains-add x v seen)

contains-append :
    (x : String) (xs ys : List String)
    → contains x (xs ++ ys) ≡ (if contains x xs then true else contains x ys)
unfolding contains
contains-append x [] ys = refl
contains-append x (y ∷ xs) ys = ground (arith, contains-append x xs ys)

-- All clients of the list are named by the graph.
abbrev Known : Dict (List String) → List String → Type 0
Known graph xs = All (λ x. contains x (clients graph) ≡ true) xs

All-of_contains :
    (u xs : List String)
    → ((x : String) → contains x xs ≡ true → contains x u ≡ true)
    → All (λ x. contains x u ≡ true) xs
unfolding contains
All-of_contains u [] h = tt
All-of_contains u (x ∷ xs) h =
    (h x (ground arith), All-of_contains u xs (λ y c. h y (ground arith)))

waits-contains :
    (k x : String) (graph : Dict (List String))
    → contains x (lookup_or k [] graph) ≡ true
    → contains x (clients graph) ≡ true
unfolding lookup_or lookup clients contains
waits-contains k x [] h = absurd (cc)
waits-contains k x ((j, w) ∷ graph) h =
    ground (arith, waits-contains k x graph, contains-append x w (clients graph))

keys-contains :
    (x : String) (graph : Dict (List String))
    → contains x (keys graph) ≡ true
    → contains x (clients graph) ≡ true
unfolding keys clients contains
keys-contains x [] h = absurd (cc)
keys-contains x ((j, w) ∷ graph) h =
    ground (arith, keys-contains x graph, contains-append x w (clients graph))

-- The search went on, and forgot nobody that it had visited.
abbrev Goes : List String → Search → Option Search → Type 0
Goes u s r = (t : Search) × (r ≡ some t) × (unseen u t.visited ≤ unseen u s.visited)

visit_all-Goes :
    (u : List String) (k : ℕ) (go : String → Search → Option Search) (path nbs : List String)
    (s : Search)
    → ((nb : String) (s : Search)
        → contains nb u ≡ true
        → contains nb s.visited ≡ false
        → unseen u s.visited ≤ k
        → Goes u s (go nb s))
    → All (λ x. contains x u ≡ true) nbs
    → unseen u s.visited ≤ k
    → Goes u s (visit_all go path nbs s)
unfolding visit_all
visit_all-Goes u k go path [] s h a b = (s, refl, omega arith)
visit_all-Goes u k go path (nb ∷ nbs) s h a b = elim (Bool-cases (contains nb s.visited)) [
  | inl e ↦ elim (Bool-cases (contains nb s.rec)) [
    | inl r ↦ rw (e, visit_all) (rw r (visit_all-Goes u k go path nbs _ h a.1 b))
    | inr r ↦ rw (e, visit_all) (rw r (visit_all-Goes u k go path nbs s h a.1 b))
  ]
  | inr e ↦
      let (t, q, l) = h nb s a.0 e b in
      let (t', q', l') = visit_all-Goes u k go path nbs t h a.1 (omega (arith, l, b)) in
      rw (e, visit_all) (rw q (t', q', omega (arith, l, l')))
]

dfs-Goes :
    (graph : Dict (List String)) (fuel : ℕ) (path : List String) (node : String) (s : Search)
    → contains node (clients graph) ≡ true
    → contains node s.visited ≡ false
    → unseen (clients graph) s.visited ≤ fuel
    → Goes (clients graph) s (dfs graph fuel path node s)
unfolding dfs
dfs-Goes graph zero path node s c n b =
    absurd (omega (arith, unseen-add_new node (clients graph) s.visited c n, b))
dfs-Goes graph (suc fuel) path node s c n b =
    let less = unseen-add_new node (clients graph) s.visited c n in
    let entered : Search = record s { visited = add node s.visited; rec = add node s.rec } in
    let (t, q, l) =
      visit_all-Goes (clients graph) fuel (dfs graph fuel (path ++ node ∷ [])) (path ++ node ∷ [])
        (lookup_or node [] graph) entered
        (λ nb s c n b. dfs-Goes graph fuel (path ++ node ∷ []) nb s c n b)
        (All-of_contains (clients graph) (lookup_or node [] graph)
          (λ x. waits-contains node x graph))
        (omega (arith, less, b)) in
    rw q (record t { rec = discard node t.rec }, refl, omega (arith, l, less))

search_from-Goes :
    (graph : Dict (List String)) (fuel : ℕ) (cs : List String) (s : Search)
    → Known graph cs
    → unseen (clients graph) s.visited ≤ fuel
    → Goes (clients graph) s (search_from graph fuel cs s)
unfolding search_from
search_from-Goes graph fuel [] s a b = (s, refl, omega arith)
search_from-Goes graph fuel (c ∷ cs) s a b = elim (Bool-cases (contains c s.visited)) [
  | inl e ↦ rw (e, search_from) (search_from-Goes graph fuel cs s a.1 b)
  | inr e ↦
      let (t, q, l) = dfs-Goes graph fuel [] c s a.0 e b in
      let (t', q', l') = search_from-Goes graph fuel cs t a.1 (omega (arith, l, b)) in
      rw (e, search_from) (rw q (t', q', omega (arith, l, l')))
]

-- The search gives its result on every graph.
pub find_cycles_total :
    (graph : Dict (List String)) → (cs : List (List String)) × (find_cycles graph ≡ some cs)
unfolding find_cycles
find_cycles_total graph =
    let start : Search = record { visited = []; rec = []; cycles = [] } in
    let (t, q, _) =
      search_from-Goes graph (suc (length (clients graph))) (keys graph) start
        (All-of_contains (clients graph) (keys graph) (λ x. keys-contains x graph))
        (omega (arith, unseen_le (clients graph) [])) in
    (t.cycles, rw (q, find_cycles) refl)

-- A round of the deadlock detection ends on every state, with the state in which every cycle found is
-- resolved.
pub detect_total :
    (m : LockManager)
    → (cs : List (List String)) × (find_cycles m.wait_for ≡ some cs)
      × (detect m ≡ some (resolve_all cs m))
unfolding detect
detect_total m = let (cs, q) = find_cycles_total m.wait_for in (cs, q, rw (q, detect) refl)
