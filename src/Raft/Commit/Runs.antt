-- ===== src/Raft/Commit/Runs.antt =====
-- Whole runs of a node (src/consensus/raft.py): what was committed stays.
use distributed_sync_system.Base.{ℕ, inl, inr, List, [], ◌∷◌, arith, Bool-cases}
use distributed_sync_system.Raft.State.{RaftNode}
use distributed_sync_system.Raft.Follower.{}
use distributed_sync_system.Raft.Commit.{IsValid, Stable, Stable-trans, Quiet-Stable}
use distributed_sync_system.Raft.Commit.{
  handle_request_vote-Quiet, finish_election-Quiet, start_election-Quiet, handle_append_reply-Quiet,
  await_commit-Quiet,
}
use distributed_sync_system.Raft.Commit.Leader.{
  submit-Stable, advance_commit_index-Stable, apply_round-Stable,
}
use distributed_sync_system.Raft.Commit.Keeping.{Respects, handle_append_entries-Stable}
use distributed_sync_system.Raft.Apply.{wake}
use distributed_sync_system.Raft.Steps.{
  Event, election_timer, votes_arrive, vote_request, append_request, append_reply, replicated,
  wakes, apply, command, command_done, step, run,
}
use distributed_sync_system.Raft.Election.{election_due}

module _ {C : Type 0} where
  -- What an event asks of the node: a leader's request is consistent with what is committed.
  abbrev pub RespectsEvent : Event C → RaftNode C → Type 0
  RespectsEvent (append_request now req) n = (k : ℕ) × Respects k req n
  RespectsEvent _ n = Unit {0}

  abbrev pub Respected : List (Event C) → RaftNode C → Type 0
  Respected [] n = Unit {0}
  Respected (e ∷ es) n = RespectsEvent e n × Respected es (step e n)

  step-Stable :
      (e : Event C) (n : RaftNode C)
      → RespectsEvent e n
      → IsValid n
      → IsValid (step e n) × Stable n (step e n)
  unfolding step wake
  step-Stable (election_timer timeout now) n r v = elim (Bool-cases (election_due timeout now n)) [
    | inl e ↦ rw (e, step) (Quiet-Stable (start_election-Quiet now n) v)
    | inr e ↦ ground arith
  ]
  step-Stable (votes_arrive term now results) n r v =
      Quiet-Stable (finish_election-Quiet term now results n) v
  step-Stable (vote_request now req) n r v = Quiet-Stable (handle_request_vote-Quiet now req n) v
  step-Stable (append_request now req) n (k, r) v = handle_append_entries-Stable k now req n r v
  step-Stable (append_reply peer next_idx sent now resp) n r v =
      Quiet-Stable (handle_append_reply-Quiet peer next_idx sent now resp n) v
  step-Stable replicated n r v = advance_commit_index-Stable n v
  step-Stable wakes n r v = ground arith
  step-Stable (apply entry) n r v = apply_round-Stable n entry v
  step-Stable (command c) n r v = submit-Stable c n v
  step-Stable (command_done i) n r v = Quiet-Stable (await_commit-Quiet i n) v

  -- In a run whose requests are consistent with what the node has committed by then, the indices
  -- stay in order and within the log, the commit index never falls, and the entries that were
  -- committed at the start are in the log at the end, unchanged and at their places.
  pub run-Stable :
      (es : List (Event C)) (n : RaftNode C)
      → Respected es n
      → IsValid n
      → IsValid (run es n) × Stable n (run es n)
  unfolding run
  run-Stable [] n r v = (v, ground arith)
  run-Stable (e ∷ es) n r v =
      let (v', s) = step-Stable e n r.0 v in
      let (v'', s') = run-Stable es (step e n) r.1 v' in (v'', Stable-trans s s')
