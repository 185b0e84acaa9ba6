-- ===== src/Raft/Steady.antt =====
-- What the events of a node of src/consensus/raft.py that are no election leave of its part in one: it goes on
-- in its state and term, or it is a follower.
use distributed_sync_system.Base.{
  ℕ, zero, suc, ◌≡◌, refl, inl, inr, ◌⊎◌, Option, none, some, String, ℤ, pos, pos_part, ltb_ℤ, ◌+ℤ◌,
  ◌-ℤ◌, arith, Bool-cases, Option-cases,
}
use distributed_sync_system.Raft.State.{RaftNode, LogEntry, follower}
use distributed_sync_system.Raft.Vote.{VoteRequest, handle_request_vote}
use distributed_sync_system.Raft.Append.{
  AppendRequest, AppendReply, handle_append_entries, hear_leader, respond, reply, get_item,
}
use distributed_sync_system.Raft.Replicate.{handle_append_reply, advance_commit_index}
use distributed_sync_system.Raft.Apply.{apply_round, catch_up}
use distributed_sync_system.Raft.Client.{append_command, await_commit}

module _ {C : Type 0} where
  pub record Steady (n m : RaftNode C) : Type 0 where
    pub same_votes : m.votes_received ≡ n.votes_received
    pub goes_on : (m.state ≡ follower) ⊎ ((m.state ≡ n.state) × (m.current_term ≡ n.current_term))

  pub handle_request_vote-Steady :
      (now : ℕ) (req : VoteRequest) (n : RaftNode C) → Steady n (handle_request_vote now req n).0
  unfolding handle_request_vote
  handle_request_vote-Steady now req n = ground arith

  pub handle_append_entries-Steady :
      (now : ℕ) (req : AppendRequest C) (n : RaftNode C)
      → Steady n (handle_append_entries now req n).0
  unfolding handle_append_entries hear_leader respond reply
  handle_append_entries-Steady now req n = ground arith

  pub handle_append_reply-Steady :
      (peer : String) (next_idx : ℤ) (sent now : ℕ) (resp : Option AppendReply) (n : RaftNode C)
      → Steady n (handle_append_reply peer next_idx sent now resp n)
  unfolding handle_append_reply
  handle_append_reply-Steady peer next_idx sent now none n = ground arith
  handle_append_reply-Steady peer next_idx sent now (some resp) n = ground arith

  pub advance_commit_index-Steady : (n : RaftNode C) → Steady n (advance_commit_index n)
  unfolding advance_commit_index
  advance_commit_index-Steady n = ground arith

  pub append_command-Steady : (c : C) (n : RaftNode C) → Steady n (append_command c n).0
  unfolding append_command
  append_command-Steady c n = ground arith

  pub await_commit-Steady : (i : ℕ) (n : RaftNode C) → Steady n (await_commit i n).0
  unfolding await_commit
  await_commit-Steady i n = ground arith

  -- The apply loop touches nothing but the index of what it applied.
  catch_up-Steady :
      (k : ℕ) (n : RaftNode C) (entry : Option (LogEntry C))
      → let m = (catch_up k n entry).0 in
        (m.votes_received ≡ n.votes_received)
        × (m.state ≡ n.state)
        × (m.current_term ≡ n.current_term)
  unfolding catch_up
  catch_up-Steady zero n entry = (refl, refl, refl)
  catch_up-Steady (suc k) n entry = elim (Bool-cases (ltb_ℤ n.last_applied n.commit_index)) [
    | inl e ↦ elim (Option-cases (get_item n.log (n.last_applied +ℤ pos 1))) [
      | inl q ↦ rw (e, catch_up) (rw (q, catch_up) (refl, refl, refl))
      | inr (x, q) ↦
          rw (e, catch_up)
            (rw (q, catch_up)
              (catch_up-Steady k (record n { last_applied = n.last_applied +ℤ pos 1 }) (some x)))
    ]
    | inr e ↦ ground arith
  ]

  pub apply_round-Steady :
      (n : RaftNode C) (entry : Option (LogEntry C)) → Steady n (apply_round n entry).0
  unfolding apply_round
  apply_round-Steady n entry =
      let (v, s, t) = catch_up-Steady (pos_part (n.commit_index -ℤ n.last_applied)) n entry in
      record { same_votes = v; goes_on = inr (s, t) }
