-- ===== src/Raft/Commit/Leader.antt =====
-- The steps of a node's own that touch the log or its indices (src/consensus/raft.py): a client's
-- command, the leader's commit, the apply loop.
use distributed_sync_system.Base.{
  ℕ, zero, suc, ◌<◌, ◌≡◌, inl, inr, true, Option, some, [], ◌∷◌, pos, ◌+ℤ◌, ◌-ℤ◌, ◌<ℤ◌, arith,
  pos_part, upto-le, Bool-cases, Option-cases, ltb_ℤ, length, take-append_of_le, length-append,
}
use distributed_sync_system.Raft.State.{RaftNode, LogEntry}
use distributed_sync_system.Raft.Append.{get_item}
use distributed_sync_system.Raft.Replicate.{advance_commit_index, find_committable, committable}
use distributed_sync_system.Raft.Apply.{apply_round, catch_up}
use distributed_sync_system.Raft.Client.{append_command}
use distributed_sync_system.Raft.Follower.{}
use distributed_sync_system.Raft.Commit.{IsValid, Stable, Stable-trans, committed_count}

module _ {C : Type 0} where
  pub submit-Stable :
      (c : C) (n : RaftNode C)
      → IsValid n
      → IsValid (append_command c n).0 × Stable n (append_command c n).0
  unfolding append_command
  submit-Stable c n v = ground (
    arith,
    upto-le n.commit_index (length n.log) v.high,
    length-append n.log (record { term = n.current_term; index = length n.log; command = c } ∷ []),
    take-append_of_le (committed_count n) n.log
        (record { term = n.current_term; index = length n.log; command = c } ∷ []),
  )

  pub find_committable-some :
      (i : ℕ) (n : RaftNode C) (j : ℕ)
      → find_committable i n ≡ some j
      → (j < i) × (n.commit_index <ℤ pos j) × (committable j n ≡ true)
  unfolding find_committable
  find_committable-some zero n j h = cc
  find_committable-some (suc i) n j h = ground (arith, find_committable-some i n j)

  pub advance_commit_index-Stable :
      (n : RaftNode C)
      → IsValid n
      → IsValid (advance_commit_index n) × Stable n (advance_commit_index n)
  unfolding advance_commit_index
  advance_commit_index-Stable n v = elim (Option-cases (find_committable (length n.log) n)) [
    | inl e ↦ ground arith
    | inr (i, e) ↦ ground (arith, find_committable-some (length n.log) n i e)
  ]

  pub apply_next-Stable :
      (n : RaftNode C)
      → IsValid n
      → ltb_ℤ n.last_applied n.commit_index ≡ true
      → let m : RaftNode C = record n { last_applied = n.last_applied +ℤ pos 1 } in
        IsValid m × Stable n m
  unfolding ◌+ℤ◌
  apply_next-Stable n v h = ground arith

  pub catch_up-Stable :
      (k : ℕ) (n : RaftNode C) (entry : Option (LogEntry C))
      → IsValid n
      → IsValid (catch_up k n entry).0 × Stable n (catch_up k n entry).0
  unfolding catch_up
  catch_up-Stable zero n entry v = ground arith
  catch_up-Stable (suc k) n entry v = elim (Bool-cases (ltb_ℤ n.last_applied n.commit_index)) [
    | inl e ↦ elim (Option-cases (get_item n.log (n.last_applied +ℤ pos 1))) [
      | inl q ↦ rw (e, catch_up) (rw (q, catch_up) (apply_next-Stable n v e))
      | inr (x, q) ↦
          let (v', s) = apply_next-Stable n v e in
          let next : RaftNode C = record n { last_applied = n.last_applied +ℤ pos 1 } in
          let (v'', s') = catch_up-Stable k next (some x) v' in
          rw (e, catch_up) (rw (q, catch_up) (v'', Stable-trans s s'))
    ]
    | inr e ↦ ground arith
  ]

  pub apply_round-Stable :
      (n : RaftNode C) (entry : Option (LogEntry C))
      → IsValid n
      → IsValid (apply_round n entry).0 × Stable n (apply_round n entry).0
  unfolding apply_round
  apply_round-Stable n entry v =
      catch_up-Stable (pos_part (n.commit_index -ℤ n.last_applied)) n entry v
