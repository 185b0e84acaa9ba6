-- ===== src/Ring/Moves.antt =====
-- Which keys move when a node joins or leaves the hash ring of src/nodes/queue_node.py.
use distributed_sync_system.Base.{
  ℕ, zero, suc, ◌≡◌, ◌≢◌, refl, ap, ◌∙◌, ◌⊎◌, inl, inr, some, String, ◌==◌, returned, arith,
  Option-cases, Bool-cases,
}
use distributed_sync_system.Ring.Hashing.{
  ConsistentHashRing, node_at, remove_first, point_for, add_point, add_points, add_node,
  remove_point, remove_points, remove_node, get_node,
}
use distributed_sync_system.Ring.Points.{
  outcome_cases, point_for-remove_first, point_for-insort, node_at-set_node, node_at-delete_node,
}

module _ (point : String → ℕ → ℕ) (position : String → ℕ) where
  -- The node that answers for a key.
  abbrev pub Owns : String → String → ConsistentHashRing → Type 0
  Owns key m r = (q : ℕ) × (point_for (position key) r.ring ≡ some q) × (node_at q r.map ≡ some m)

  Owns-of-get_node :
      (key m : String) (r : ConsistentHashRing)
      → get_node point position key r ≡ returned (some m)
      → Owns key m r
  unfolding get_node
  Owns-of-get_node key m r g = elim (Option-cases (point_for (position key) r.ring)) [
    | inl n ↦ absurd (ground arith)
    | inr (q, n) ↦ elim (Option-cases (node_at q r.map)) [
      | inl u ↦ absurd (ground arith)
      | inr (v, u) ↦ (q, n, ground arith)
    ]
  ]

  get_node-Owns :
      (key m : String) (r : ConsistentHashRing)
      → Owns key m r
      → get_node point position key r ≡ returned (some m)
  unfolding get_node
  get_node-Owns key m r (q, n, u) = rw (n, get_node) (rw u refl)

  -- No other node has a point of this one.
  abbrev pub OwnPoints : String → ConsistentHashRing → Type 0
  OwnPoints node r = (i : ℕ) (v : String) → node_at (point node i) r.map ≡ some v → v ≡ node

  remove_point-Owns :
      (key m node : String) (i : ℕ) (r : ConsistentHashRing)
      → OwnPoints node r
      → m ≢ node
      → Owns key m r
      → let r' = (remove_point point position (point node i) r).0 in
        OwnPoints node r' × Owns key m r'
  unfolding remove_point
  remove_point-Owns key m node i r o d (q, n, u) =
      let h = point node i in
      elim (Option-cases (node_at h r.map)) [
        | inl a ↦ rw (a, remove_point) (o, (q, n, u))
        | inr (v, a) ↦ elim (Option-cases (remove_first h r.ring)) [
          | inl b ↦ rw (a, remove_point) (rw b (o, (q, n, u)))
          | inr (ring, b) ↦
              let other : h ≢ q = λ e. ground (arith, o i v a, ap (λ (j : ℕ). node_at j r.map) e) in
              rw (a, remove_point)
                (rw b (
                  (λ j w f. ground (arith, o j w, node_at-delete_node (point node j) h r.map)),
                  (
                    q,
                    point_for-remove_first (position key) h q r.ring ring b other n,
                    ground (arith, u, node_at-delete_node q h r.map, other),
                  ),
                ))
        ]
      ]

  remove_points-Owns :
      (key m node : String) (left i : ℕ) (r : ConsistentHashRing)
      → OwnPoints node r
      → m ≢ node
      → Owns key m r
      → Owns key m (remove_points point position node i left r).0
  unfolding remove_points
  remove_points-Owns key m node zero i r o d own = own
  remove_points-Owns key m node (suc left) i r o d own =
      let (r', ended) = remove_point point position (point node i) r in
      let (o', own') = remove_point-Owns key m node i r o d own in
      elim (outcome_cases ended) [
        | inl (x, e) ↦ rw (e, remove_points) own'
        | inr (x, e) ↦
            rw (e, remove_points) (remove_points-Owns key m node left (suc i) r' o' d own')
      ]

  -- A key that another node answers for stays with that node when a node leaves, if no point of the
  -- leaving node is taken by another.
  pub get_node-remove_node :
      (key m node : String) (r : ConsistentHashRing)
      → OwnPoints node r
      → m ≢ node
      → get_node point position key r ≡ returned (some m)
      → get_node point position key (remove_node point position node r).0 ≡ returned (some m)
  unfolding remove_node
  get_node-remove_node key m node r o d g =
      get_node-Owns key m _
        (remove_points-Owns key m node r.virtual_nodes 0 r o d (Owns-of-get_node key m r g))

  -- A key whose node is the one or the other.
  abbrev pub OwnsEither : String → String → String → ConsistentHashRing → Type 0
  OwnsEither key m node r = Owns key m r ⊎ Owns key node r

  add_point-Owns :
      (key m node : String) (i : ℕ) (r : ConsistentHashRing)
      → Owns key m r
      → OwnsEither key m node (add_point point position node i r)
  unfolding add_point
  add_point-Owns key m node i r (q, n, u) =
      let h = point node i in
      elim (point_for-insort (position key) h r.ring) [
        | inl e ↦ elim (Bool-cases (q == h)) [
          | inl s ↦ inr (q, e ∙ n, ground (arith, node_at-set_node q h node r.map))
          | inr s ↦ inl (q, e ∙ n, ground (arith, u, node_at-set_node q h node r.map))
        ]
        | inr e ↦ inr (h, e, ground (arith, node_at-set_node h h node r.map))
      ]

  add_points-Owns :
      (key m node : String) (left i : ℕ) (r : ConsistentHashRing)
      → OwnsEither key m node r
      → OwnsEither key m node (add_points point position node i left r)
  unfolding add_points
  add_points-Owns key m node zero i r o = o
  add_points-Owns key m node (suc left) i r (inl o) =
      add_points-Owns key m node left (suc i) (add_point point position node i r)
        (add_point-Owns key m node i r o)
  add_points-Owns key m node (suc left) i r (inr o) =
      let o' : OwnsEither key m node (add_point point position node i r) =
        elim (add_point-Owns key node node i r o) [ inl a ↦ inr a | inr a ↦ inr a ] in
      add_points-Owns key m node left (suc i) (add_point point position node i r) o'

  -- When a node joins, a key stays with its node or goes to the new one.
  pub get_node-add_node :
      (key m node : String) (r : ConsistentHashRing)
      → get_node point position key r ≡ returned (some m)
      → let r' = add_node point position node r in
        (get_node point position key r' ≡ returned (some m))
        ⊎ (get_node point position key r' ≡ returned (some node))
  unfolding add_node
  get_node-add_node key m node r g =
      elim (add_points-Owns key m node r.virtual_nodes 0 r (inl (Owns-of-get_node key m r g))) [
        | inl o ↦ inl (get_node-Owns key m _ o)
        | inr o ↦ inr (get_node-Owns key node _ o)
      ]
