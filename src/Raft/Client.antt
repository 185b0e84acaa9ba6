-- ===== src/Raft/Client.antt =====
-- `append_command` and `get_status` of src/consensus/raft.py. The command waits for its future
-- outside the lock, so the method is `submit`, and `await_commit` when the wait is over.
use distributed_sync_system.Base.{
  ℕ, Option, none, some, List, [], ◌∷◌, ◌++◌, String, ℤ, pos, length, ◌==◌, if◌then◌else◌,
}
use distributed_sync_system.Metrics.{set_gauge}
use distributed_sync_system.Raft.State.{RaftNode, NodeState, Future, waiting, cancelled, committed}
use distributed_sync_system.Raft.Election.{is_leader}

pub data ClientReply : Type 0 where
  not_leader : Option String → ClientReply
  done timeout : ℕ → ClientReply

-- `self._pending[index] = fut`
unfoldable pub set_pending : ℕ → Future → List (ℕ × Future) → List (ℕ × Future)
set_pending i f [] = (i, f) ∷ []
set_pending i f ((j, g) ∷ ps) = if j == i then (j, f) ∷ ps else (j, g) ∷ set_pending i f ps

unfoldable pub pending_at : ℕ → List (ℕ × Future) → Option Future
pending_at i [] = none
pending_at i ((j, f) ∷ ps) = if j == i then some f else pending_at i ps

module _ {C : Type 0} where
  -- What the method does under the lock: an answer, or the index of the entry to wait for.
  unfoldable pub submit : C → RaftNode C → RaftNode C × Option ℕ
  unfolding set_pending
  submit command n =
      if is_leader n.state
      then (let i = length n.log in
          let log = n.log ++ record { term = n.current_term; index = i; command = command } ∷ [] in
          (
            record n {
              log = log;
              metrics = set_gauge "raft_log_size" (pos (length log)) n.metrics;
              pending = set_pending i waiting n.pending;
            },
            some i,
          ))
      else (n, none)

  -- The end of `wait_for` on the future of entry `i`: it has its result, or the time is over, which
  -- cancels it. A future that a later command of the same index has replaced is no longer part of the
  -- node; its client runs into the timeout, and the node does not change.
  unfoldable pub await_commit : ℕ → RaftNode C → RaftNode C × ClientReply
  unfolding pending_at set_pending
  await_commit i n = elim (pending_at i n.pending) [
    | none ↦ (n, timeout i)
    | some (committed j) ↦ (n, done j)
    | some cancelled ↦ (n, timeout i)
    | some waiting ↦ (record n { pending = set_pending i cancelled n.pending }, timeout i)
  ]

  unfoldable pub append_command : C → RaftNode C → RaftNode C × (Option ClientReply)
  unfolding submit
  append_command command n = elim (submit command n).1 [
    | none ↦ ((submit command n).0, some (not_leader n.current_leader))
    | some i ↦ ((submit command n).0, none)
  ]

pub record Status : Type 0 where
  pub node_id : String
  pub state : NodeState
  pub current_term : ℕ
  pub voted_for : Option String
  pub leader : Option String
  pub log_size : ℕ
  pub commit_index : ℤ
  pub last_applied : ℤ
  pub peers : List String

unfoldable pub get_status : {C : Type 0} → RaftNode C → Status
get_status n = record {
  node_id = n.node_id;
  state = n.state;
  current_term = n.current_term;
  voted_for = n.voted_for;
  leader = n.current_leader;
  log_size = length n.log;
  commit_index = n.commit_index;
  last_applied = n.last_applied;
  peers = n.peers;
}
