-- ===== src/Raft/Election.antt =====
-- The election of src/consensus/raft.py. `_start_election` gives the lock back while it waits for
-- the replies, so it is two functions: `start_election` up to the broadcast, `finish_election`
-- from the replies on, with the term that the first part remembered. The broadcast's result is a
-- dictionary from peer to reply, `none` where the call failed.
use distributed_sync_system.Base.{
  ℕ, suc, ◌+◌, Bool, true, false, ◌&&◌, Option, none, some, List, [], ◌∷◌, String, ℤ, pos, negsuc,
  Dict, insert, add, ltb, leb, ◌==◌, if◌then◌else◌, length,
}
use distributed_sync_system.Metrics.{count_up, set_gauge}
use distributed_sync_system.Raft.State.{
  RaftNode, NodeState, candidate, leader, last_log_index, last_log_term, step_down, majority,
}
use distributed_sync_system.Raft.Vote.{VoteRequest, VoteReply}

abbrev pub is_leader : NodeState → Bool
is_leader leader = true
is_leader _ = false

abbrev pub is_candidate : NodeState → Bool
is_candidate candidate = true
is_candidate _ = false

-- `for peer in self.peers`: the leader's indices of each.
unfoldable pub reset_peers : List String → ℤ → Dict ℤ → Dict ℤ
reset_peers [] v d = d
reset_peers (p ∷ ps) v d = reset_peers ps v (insert p v d)

module _ {C : Type 0} where
  unfoldable pub start_election : ℕ → RaftNode C → RaftNode C × VoteRequest
  start_election now n =
      let term = suc n.current_term in
      (
        record n {
          state = candidate;
          current_term = term;
          voted_for = some n.node_id;
          votes_received = n.node_id ∷ [];
          last_heartbeat = now;
          metrics = set_gauge "raft_term" (pos term) (count_up "raft_elections_total" 1 n.metrics);
        },
        record {
          term = term;
          candidate_id = n.node_id;
          last_log_index = last_log_index n.log;
          last_log_term = last_log_term n.log;
        },
      )

  unfoldable pub become_leader : RaftNode C → RaftNode C
  become_leader n = record n {
    state = leader;
    current_leader = some n.node_id;
    next_index = reset_peers n.peers (pos (length n.log)) n.next_index;
    match_index = reset_peers n.peers (negsuc 0) n.match_index;
    heartbeat_task = true;
  }

  -- The loop over the replies; `true` if a newer term ended it.
  unfoldable pub count_votes : ℕ → List (String × Option VoteReply) → RaftNode C → RaftNode C × Bool
  unfolding step_down
  count_votes now [] n = (n, false)
  count_votes now ((peer, none) ∷ rs) n = count_votes now rs n
  count_votes now ((peer, some r) ∷ rs) n =
      let counted : RaftNode C =
        if r.vote_granted then record n { votes_received = add peer n.votes_received } else n in
      let rest = count_votes now rs counted in
      if ltb n.current_term r.term then (step_down r.term now n, true) else rest

  unfoldable pub elect : RaftNode C × Bool → RaftNode C
  unfolding become_leader
  elect (n, true) = n
  elect (n, false) = if leb (majority n.peers) (length n.votes_received) then become_leader n else n

  unfoldable pub finish_election :
      ℕ → ℕ → List (String × Option VoteReply) → RaftNode C → RaftNode C
  finish_election term now results n =
      if is_candidate n.state && n.current_term == term
      then elect (count_votes now results n)
      else n

  -- One round of `_election_timer_loop`, after its sleep: does an election start?
  unfoldable pub election_due : ℕ → ℕ → RaftNode C → Bool
  election_due timeout now n =
      if is_leader n.state then false else leb (n.last_heartbeat + timeout) now
