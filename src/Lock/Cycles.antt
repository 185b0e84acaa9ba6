-- ===== src/Lock/Cycles.antt =====
-- `_find_cycles` of src/nodes/lock_manager.py: the depth-first search of the wait-for graph. The
-- recursion is on fuel, `none` where it runs out; a call goes one level down only to a client that was
-- not visited, so one unit for each client that the graph names is enough.
use distributed_sync_system.Base.{
  ℕ, zero, suc, Option, none, some, List, [], ◌∷◌, ◌++◌, String, Dict, ite, str_dec, lookup_or,
  contains, add, discard, length, if◌then◌else◌,
}

pub record Search : Type 0 where
  pub visited : List String
  pub rec : List String
  pub cycles : List (List String)

-- `path[path.index(x):]`; it is called with an `x` on the path.
unfoldable pub from_client : String → List String → List String
from_client x [] = []
from_client x (y ∷ path) = ite (str_dec x y) (y ∷ path) (from_client x path)

infixl 5 ◌>>=◌
abbrev ◌>>=◌ : Option Search → (Search → Option Search) → Option Search
none >>= f = none
some s >>= f = f s

-- The loop over the clients that the last of the path waits for; `go` is the call one level down.
unfoldable pub visit_all :
    (String → Search → Option Search) → List String → List String → Search → Option Search
visit_all go path [] s = some s
visit_all go path (nb ∷ nbs) s =
    (if contains nb s.visited
      then some (
          if contains nb s.rec
          then record s { cycles = s.cycles ++ from_client nb path ∷ [] }
          else s)
      else go nb s)
    >>= visit_all go path nbs

-- The body of `dfs`, `path` without the node. `path.pop()` needs no counterpart: a list is not shared.
unfoldable pub dfs : Dict (List String) → ℕ → List String → String → Search → Option Search
dfs graph zero path node s = none
dfs graph (suc fuel) path node s =
    let path' = path ++ node ∷ [] in
    let entered = record s { visited = add node s.visited; rec = add node s.rec } in
    visit_all (dfs graph fuel path') path' (lookup_or node [] graph) entered >>= λ s'.
    some (record s' { rec = discard node s'.rec })

-- The loop over the clients that wait.
unfoldable pub search_from : Dict (List String) → ℕ → List String → Search → Option Search
search_from graph fuel [] s = some s
search_from graph fuel (c ∷ cs) s =
    (if contains c s.visited then some s else dfs graph fuel [] c s) >>= search_from graph fuel cs

unfoldable pub keys : Dict (List String) → List String
keys [] = []
keys ((k, w) ∷ graph) = k ∷ keys graph

-- Every client that the graph names.
unfoldable pub clients : Dict (List String) → List String
clients [] = []
clients ((k, w) ∷ graph) = k ∷ w ++ clients graph

unfoldable pub find_cycles : Dict (List String) → Option (List (List String))
unfolding search_from keys clients
find_cycles graph =
    elim (search_from graph (suc (length (clients graph))) (keys graph)
      (record { visited = []; rec = []; cycles = [] })) [ none ↦ none | some s ↦ some s.cycles ]
