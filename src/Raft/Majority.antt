-- ===== src/Raft/Majority.antt =====
-- The majority of src/consensus/raft.py: any two quorums of a cluster share a node.
use distributed_sync_system.Base.{
  ◌+◌, ◌*◌, ◌<◌, ◌≤◌, ◌≡◌, true, List, String, arith, length, All, contains, Distinct,
  count_overlap, length-le-count,
}
use distributed_sync_system.Raft.State.{majority}

majority_bound : (peers : List String) → length peers + 1 < 2 * majority peers
unfolding majority
majority_bound peers = omega arith

-- Two sets of voters out of a cluster of the node and its peers, each as large as the majority that
-- an election or a commit asks for, have a member in common.
pub majority_overlap :
    (peers cluster xs ys : List String)
    → length cluster ≡ length peers + 1
    → Distinct xs
    → Distinct ys
    → All (λ v. contains v cluster ≡ true) xs
    → All (λ v. contains v cluster ≡ true) ys
    → majority peers ≤ length xs
    → majority peers ≤ length ys
    → (v : String) × (contains v xs ≡ true) × (contains v ys ≡ true)
majority_overlap peers cluster xs ys size dx dy ax ay hx hy =
    let (v, _, x, y) =
      count_overlap (λ v. contains v xs) (λ v. contains v ys) cluster
        (omega (
          arith,
          size,
          majority_bound peers,
          length-le-count xs cluster dx ax,
          length-le-count ys cluster dy ay,
        )) in
    (v, x, y)
