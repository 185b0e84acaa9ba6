-- ===== src/Ring/Tests.antt =====
-- Runs of the hash ring of src/nodes/queue_node.py, with small numbers for the hashes.
use distributed_sync_system.Base.{
  ℕ, ◌+◌, ◌*◌, ◌≡◌, ◌≢◌, ◌⊎◌, refl, some, [], ◌∷◌, String, returned, raised, key_error, ite,
  str_dec, arith,
}
use text.Mathlib.TextEquality.{eq_iff}
use distributed_sync_system.Base.{true, false}
use distributed_sync_system.Ring.Hashing.{
  ConsistentHashRing, node_at, set_node, delete_node, bisect_left, insort, remove_first, point_for,
  add_point, add_points, add_node, remove_point, remove_points, remove_node, get_node,
}
use distributed_sync_system.Ring.Moves.{OwnPoints, get_node-remove_node, get_node-add_node}

never : false ≡ true → ⊥
never e = cc

program : Unit {0}
unfolding str_dec node_at set_node delete_node bisect_left insort remove_first point_for add_point
    add_points add_node remove_point remove_points remove_node get_node
program = tt

abbrev point : String → ℕ → ℕ
unfolding str_dec
point node i = 10 * i + ite (str_dec node "a") 1 (ite (str_dec node "b") 4 7)

abbrev position : String → ℕ
unfolding str_dec
position key = ite (str_dec key "x") 3 15

abbrev two : ConsistentHashRing
two = record {
  virtual_nodes = 2;
  ring = 1 ∷ 4 ∷ 11 ∷ 14 ∷ [];
  map = (1, "a") ∷ (11, "a") ∷ (4, "b") ∷ (14, "b") ∷ [];
}

built :
    add_node point position "b"
      (add_node point position "a" (record { virtual_nodes = 2; ring = []; map = [] }))
    ≡ two
unfolding program
built = refl

b_not_a : ◌≢◌ {A = String} "b" "a"
b_not_a e = absurd (never ((eq_iff "b" "a").1 e))

a-OwnPoints : OwnPoints point position "a" two
unfolding program
a-OwnPoints i v h = ground arith

get_node-remove_node_example :
    get_node point position "x" (remove_node point position "a" two).0 ≡ returned (some "b")
unfolding program
get_node-remove_node_example =
    get_node-remove_node point position "x" "b" "a" two a-OwnPoints b_not_a refl

moves_to_the_new :
    let r' = add_node point position "c" two in
    (get_node point position "y" r' ≡ returned (some "a"))
    ⊎ (get_node point position "y" r' ≡ returned (some "c"))
unfolding program
moves_to_the_new = get_node-add_node point position "y" "a" "c" two refl

-- A node that was added twice leaves points without a node behind when it is removed.
added_twice :
    get_node point position "x" (remove_node point position "b" (add_node point position "b" two)).0
    ≡ raised key_error
unfolding program
added_twice = refl
