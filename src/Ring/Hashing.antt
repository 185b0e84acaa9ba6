-- ===== src/Ring/Hashing.antt =====
-- `ConsistentHashRing` of src/nodes/queue_node.py. The MD5 numbers of a node's points and of a key are
-- parameters. `bisect_left` and `insort` are given by what they do on a sorted list.
use distributed_sync_system.Base.{
  ℕ, zero, suc, Option, none, some, List, [], ◌∷◌, String, length, get_elem?, ltb, ◌==◌,
  if◌then◌else◌, Outcome, returned, raised, key_error, value_error,
}

pub record ConsistentHashRing : Type 0 where
  pub virtual_nodes : ℕ
  pub ring : List ℕ
  pub map : List (ℕ × String)

unfoldable pub node_at : ℕ → List (ℕ × String) → Option String
node_at h [] = none
node_at h ((k, v) ∷ m) = if h == k then some v else node_at h m

unfoldable pub set_node : ℕ → String → List (ℕ × String) → List (ℕ × String)
set_node h v [] = (h, v) ∷ []
set_node h v ((k, w) ∷ m) = if h == k then (k, v) ∷ m else (k, w) ∷ set_node h v m

unfoldable pub delete_node : ℕ → List (ℕ × String) → List (ℕ × String)
delete_node h [] = []
delete_node h ((k, w) ∷ m) = let rest = delete_node h m in if h == k then rest else (k, w) ∷ rest

unfoldable pub bisect_left : ℕ → List ℕ → ℕ
bisect_left h [] = 0
bisect_left h (p ∷ ps) = if ltb p h then suc (bisect_left h ps) else 0

unfoldable pub insort : ℕ → List ℕ → List ℕ
insort h [] = h ∷ []
insort h (p ∷ ps) = if ltb h p then h ∷ p ∷ ps else p ∷ insort h ps

-- `list.remove`; `none` is a ValueError.
unfoldable pub remove_first : ℕ → List ℕ → Option (List ℕ)
remove_first h [] = none
remove_first h (p ∷ ps) =
    if h == p then some ps else elim (remove_first h ps) [ none ↦ none | some qs ↦ some (p ∷ qs) ]

-- The point that answers for a position: the next one, or the first.
unfoldable pub point_for : ℕ → List ℕ → Option ℕ
unfolding bisect_left
point_for h ring =
    let idx = bisect_left h ring in get_elem? ring (if idx == length ring then 0 else idx)

module _ (point : String → ℕ → ℕ) (position : String → ℕ) where
  -- A round of the loop of `add_node`, and the loop from a round on, with the number of those left.
  unfoldable pub add_point : String → ℕ → ConsistentHashRing → ConsistentHashRing
  add_point node_id i r =
      let h = point node_id i in record r { ring = insort h r.ring; map = set_node h node_id r.map }

  unfoldable pub add_points : String → ℕ → ℕ → ConsistentHashRing → ConsistentHashRing
  unfolding add_point
  add_points node_id i zero r = r
  add_points node_id i (suc left) r = add_points node_id (suc i) left (add_point node_id i r)

  unfoldable pub add_node : String → ConsistentHashRing → ConsistentHashRing
  unfolding add_points
  add_node node_id r = add_points node_id 0 r.virtual_nodes r

  unfoldable pub remove_point : ℕ → ConsistentHashRing → ConsistentHashRing × Outcome (Unit {0})
  remove_point h r = elim (node_at h r.map) [
    | none ↦ (r, returned tt)
    | some v ↦ elim (remove_first h r.ring) [
      | none ↦ (r, raised value_error)
      | some ring ↦ (record r { ring = ring; map = delete_node h r.map }, returned tt)
    ]
  ]

  unfoldable pub remove_points :
      String → ℕ → ℕ → ConsistentHashRing → ConsistentHashRing × Outcome (Unit {0})
  unfolding remove_point
  remove_points node_id i zero r = (r, returned tt)
  remove_points node_id i (suc left) r =
      let (r', ended) = remove_point (point node_id i) r in
      let rest = remove_points node_id (suc i) left r' in
      elim ended [ raised e ↦ (r', raised e) | returned _ ↦ rest ]

  unfoldable pub remove_node : String → ConsistentHashRing → ConsistentHashRing × Outcome (Unit {0})
  unfolding remove_points
  remove_node node_id r = remove_points node_id 0 r.virtual_nodes r

  unfoldable pub get_node : String → ConsistentHashRing → Outcome (Option String)
  unfolding point_for
  get_node key r = elim (point_for (position key) r.ring) [
    | none ↦ returned none
    | some p ↦ elim (node_at p r.map) [ none ↦ raised key_error | some v ↦ returned (some v) ]
  ]
