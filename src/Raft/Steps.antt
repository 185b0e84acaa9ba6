-- ===== src/Raft/Steps.antt =====
-- The node of src/consensus/raft.py as a state machine: each event is what one task does between
-- two waits, so a list of events is an interleaving of the tasks. What a task remembered across its
-- wait (the term of an election, the indices of a request) and what the network answers are in the
-- event, and unrestricted.
use distributed_sync_system.Base.{ℕ, Option, List, [], ◌∷◌, String, ℤ, if◌then◌else◌}
use distributed_sync_system.Raft.State.{RaftNode, LogEntry}
use distributed_sync_system.Raft.Vote.{VoteRequest, VoteReply, handle_request_vote}
use distributed_sync_system.Raft.Election.{election_due, start_election, finish_election}
use distributed_sync_system.Raft.Append.{AppendRequest, AppendReply, handle_append_entries}
use distributed_sync_system.Raft.Replicate.{handle_append_reply, advance_commit_index}
use distributed_sync_system.Raft.Apply.{wake, apply_round}
use distributed_sync_system.Raft.Client.{append_command, await_commit}

pub data Event (C : Type 0) : Type 0 where
  election_timer : ℕ → ℕ → Event C
  votes_arrive : ℕ → ℕ → List (String × Option VoteReply) → Event C
  vote_request : ℕ → VoteRequest → Event C
  append_request : ℕ → AppendRequest C → Event C
  append_reply : String → ℤ → ℕ → ℕ → Option AppendReply → Event C
  replicated : Event C
  wakes : Event C
  apply : Option (LogEntry C) → Event C
  command : C → Event C
  command_done : ℕ → Event C

module _ {C : Type 0} where
  unfoldable pub step : Event C → RaftNode C → RaftNode C
  step (election_timer timeout now) n =
      if election_due timeout now n then (start_election now n).0 else n
  step (votes_arrive term now results) n = finish_election term now results n
  step (vote_request now req) n = (handle_request_vote now req n).0
  step (append_request now req) n = (handle_append_entries now req n).0
  step (append_reply peer next_idx sent now resp) n =
      handle_append_reply peer next_idx sent now resp n
  step replicated n = advance_commit_index n
  step wakes n = wake n
  step (apply entry) n = (apply_round n entry).0
  step (command c) n = (append_command c n).0
  step (command_done i) n = (await_commit i n).0

  unfoldable pub run : List (Event C) → RaftNode C → RaftNode C
  run [] n = n
  run (e ∷ es) n = run es (step e n)
