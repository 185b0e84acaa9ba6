-- ===== src/Raft/Vote.antt =====
-- `handle_request_vote` of src/consensus/raft.py.
use distributed_sync_system.Base.{
  ℕ, Bool, true, false, ◌&&◌, ◌||◌, Option, none, some, List, String, ℤ, ite, str_dec, ltb, leb_ℤ,
  ◌==◌, if◌then◌else◌,
}
use distributed_sync_system.Raft.State.{
  RaftNode, LogEntry, last_log_index, last_log_term, step_down,
}

pub record VoteRequest : Type 0 where
  pub term : ℕ
  pub candidate_id : String
  pub last_log_index : ℤ
  pub last_log_term : ℕ

pub record VoteReply : Type 0 where
  pub term : ℕ
  pub vote_granted : Bool

-- `self.voted_for in (None, candidate)`
unfoldable pub can_vote : Option String → String → Bool
can_vote none candidate = true
can_vote (some c) candidate = ite (str_dec c candidate) true false

module _ {C : Type 0} where
  -- The candidate's log is at least as up to date as ours.
  unfoldable pub log_ok : VoteRequest → List (LogEntry C) → Bool
  log_ok req log =
      ltb (last_log_term log) req.last_log_term
      || (req.last_log_term == last_log_term log && leb_ℤ (last_log_index log) req.last_log_index)

  -- A newer term makes the node a follower of it before it looks at the request.
  unfoldable pub adopt_term : ℕ → ℕ → RaftNode C → RaftNode C
  unfolding step_down
  adopt_term term now n = if ltb n.current_term term then step_down term now n else n

  unfoldable pub decide_vote : ℕ → VoteRequest → RaftNode C → RaftNode C × VoteReply
  unfolding can_vote
  decide_vote now req n =
      if req.term == n.current_term && can_vote n.voted_for req.candidate_id && log_ok req n.log
      then (
        record n { voted_for = some req.candidate_id; last_heartbeat = now },
        record { term = n.current_term; vote_granted = true },
      )
      else (n, record { term = n.current_term; vote_granted = false })

  unfoldable pub handle_request_vote : ℕ → VoteRequest → RaftNode C → RaftNode C × VoteReply
  unfolding adopt_term decide_vote
  handle_request_vote now req n = decide_vote now req (adopt_term req.term now n)
