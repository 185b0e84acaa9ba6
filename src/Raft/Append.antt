-- ===== src/Raft/Append.antt =====
-- `handle_append_entries` of src/consensus/raft.py.
mod Log
unfoldable pub use Log.*
use distributed_sync_system.Base.{
  ℕ, suc, ◌+◌, Bool, true, false, Option, none, some, List, [], ◌∷◌, ◌++◌, String, ℤ, pos, negsuc,
  ◌+ℤ◌, ltb_ℤ, min_ℤ, ltb, leb, ◌==◌, if◌then◌else◌, length, get_elem?, take, Outcome, returned,
  raised, Error, index_error,
}
use distributed_sync_system.Metrics.{set_gauge}
use distributed_sync_system.Raft.State.{RaftNode, LogEntry, follower, last_log_index, step_down}
use distributed_sync_system.Raft.Election.{is_candidate}
use Log.{append_entries}

pub record AppendRequest (C : Type 0) : Type 0 where
  pub term : ℕ
  pub leader_id : String
  pub prev_log_index : ℤ
  pub prev_log_term : ℕ
  pub entries : List (LogEntry C)
  pub leader_commit : ℤ

pub record AppendReply : Type 0 where
  pub term : ℕ
  pub success : Bool

-- How the log stands at `prev_log_index`.
pub data Check : Type 0 where
  matches missing conflict : Check

module _ {C : Type 0} where
  -- A leader of this term or a newer one was heard.
  unfoldable pub hear_leader : ℕ → AppendRequest C → RaftNode C → RaftNode C
  unfolding step_down
  hear_leader now req n =
      let heard : RaftNode C = record n {
        last_heartbeat = now;
        current_leader = some req.leader_id;
      } in
      if ltb n.current_term req.term
      then step_down req.term now heard
      else if is_candidate n.state
      then record heard { state = follower }
      else heard

  unfoldable pub check_log : ℤ → ℕ → List (LogEntry C) → Check
  check_log (negsuc k) prev_log_term log = matches
  check_log (pos p) prev_log_term log = elim (get_elem? log p) [
    | none ↦ missing
    | some e ↦ if e.term == prev_log_term then matches else conflict
  ]

  -- `self.log[:prev_log_index]`, where the index is in the list.
  unfoldable pub cut_log : ℤ → List (LogEntry C) → List (LogEntry C)
  cut_log (negsuc k) log = log
  cut_log (pos p) log = take p log

  unfoldable pub reply : Bool → RaftNode C → RaftNode C × Outcome AppendReply
  reply success n = (n, returned (record { term = n.current_term; success = success }))

  unfoldable pub advance_follower : ℤ → RaftNode C → RaftNode C
  advance_follower leader_commit n =
      if ltb_ℤ n.commit_index leader_commit
      then record n {
        commit_index = min_ℤ leader_commit (last_log_index n.log);
        apply_event = true;
      }
      else n

  -- From the loop over the entries on.
  unfoldable pub store_entries : AppendRequest C → RaftNode C → RaftNode C × Outcome AppendReply
  unfolding reply advance_follower
  store_entries req n =
      let (log, ended) = append_entries (req.prev_log_index +ℤ pos 1) req.entries n.log in
      elim ended [
        | raised e ↦ (record n { log = log }, raised e)
        | returned _ ↦ reply true (
            advance_follower req.leader_commit (record n {
              log = log;
              metrics = set_gauge "raft_log_size" (pos (length log)) n.metrics;
            }))
      ]

  unfoldable pub respond : AppendRequest C → RaftNode C → RaftNode C × Outcome AppendReply
  unfolding check_log cut_log reply store_entries
  respond req n = elim (check_log req.prev_log_index req.prev_log_term n.log) [
    | missing ↦ reply false n
    | conflict ↦ reply false (record n { log = cut_log req.prev_log_index n.log })
    | matches ↦ store_entries req n
  ]

  unfoldable pub handle_append_entries :
      ℕ → AppendRequest C → RaftNode C → RaftNode C × Outcome AppendReply
  handle_append_entries now req n =
      if ltb req.term n.current_term then reply false n else respond req (hear_leader now req n)
