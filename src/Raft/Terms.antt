-- ===== src/Raft/Terms.antt =====
-- Terms and votes across the steps of a node (src/consensus/raft.py).
use distributed_sync_system.Base.{
  ℕ, zero, suc, add, ◌<◌, ◌≤◌, ◌≡◌, ◌⊎◌, true, Option, none, some, List, [], ◌∷◌, String, ℤ, arith,
}
use distributed_sync_system.Raft.State.{RaftNode, LogEntry}
use distributed_sync_system.Raft.Vote.{
  VoteRequest, VoteReply, adopt_term, decide_vote, handle_request_vote,
}
use distributed_sync_system.Raft.Election.{start_election, finish_election, count_votes, elect}
use distributed_sync_system.Raft.Append.{
  AppendRequest, AppendReply, handle_append_entries, store_entries, hear_leader, respond, reply,
}
use distributed_sync_system.Raft.Replicate.{handle_append_reply, advance_commit_index}
use distributed_sync_system.Raft.Apply.{wake, apply_round, catch_up}
use distributed_sync_system.Raft.Client.{append_command, await_commit}
use distributed_sync_system.Raft.Steps.{
  Event, election_timer, votes_arrive, vote_request, append_request, append_reply, replicated,
  wakes, apply, command, command_done, step, run,
}

-- From `n` to `m` the term grows, or it stays, and then a vote that was given stays as well.
pub record Keeps {C : Type 0} (n m : RaftNode C) : Type 0 where
  pub same_id : m.node_id ≡ n.node_id
  pub same_peers : m.peers ≡ n.peers
  pub kept :
      (n.current_term < m.current_term)
      ⊎ (m.current_term ≡ n.current_term) × ((n.voted_for ≡ none) ⊎ (m.voted_for ≡ n.voted_for))

module _ {C : Type 0} where
  pub Keeps-trans : {n m k : RaftNode C} → Keeps n m → Keeps m k → Keeps n k
  Keeps-trans p q = ground arith

  adopt_term-Keeps : (term now : ℕ) (n : RaftNode C) → Keeps n (adopt_term term now n)
  unfolding adopt_term
  adopt_term-Keeps term now n = ground arith

  decide_vote-Keeps :
      (now : ℕ) (req : VoteRequest) (n : RaftNode C) → Keeps n (decide_vote now req n).0
  unfolding decide_vote
  decide_vote-Keeps now req n = ground arith

  handle_request_vote-Keeps :
      (now : ℕ) (req : VoteRequest) (n : RaftNode C) → Keeps n (handle_request_vote now req n).0
  unfolding handle_request_vote
  handle_request_vote-Keeps now req n =
      Keeps-trans (adopt_term-Keeps req.term now n)
        (decide_vote-Keeps now req (adopt_term req.term now n))

  count_votes-Keeps :
      (now : ℕ) (rs : List (String × Option VoteReply)) (n : RaftNode C)
      → Keeps n (count_votes now rs n).0
  unfolding count_votes
  count_votes-Keeps now [] n = ground arith
  count_votes-Keeps now ((peer, none) ∷ rs) n = count_votes-Keeps now rs n
  count_votes-Keeps now ((peer, some r) ∷ rs) n = ground (
    arith,
    count_votes-Keeps now rs n,
    count_votes-Keeps now rs (record n { votes_received = add peer n.votes_received }),
  )

  finish_election-Keeps :
      (term now : ℕ) (rs : List (String × Option VoteReply)) (n : RaftNode C)
      → Keeps n (finish_election term now rs n)
  unfolding finish_election elect
  finish_election-Keeps term now rs n = ground (arith, count_votes-Keeps now rs n)

  store_entries-Keeps : (req : AppendRequest C) (n : RaftNode C) → Keeps n (store_entries req n).0
  unfolding store_entries
  store_entries-Keeps req n = ground arith

  handle_append_entries-Keeps :
      (now : ℕ) (req : AppendRequest C) (n : RaftNode C)
      → Keeps n (handle_append_entries now req n).0
  unfolding handle_append_entries hear_leader respond reply
  handle_append_entries-Keeps now req n = ground arith

  catch_up-Keeps :
      (k : ℕ) (n : RaftNode C) (entry : Option (LogEntry C)) → Keeps n (catch_up k n entry).0
  unfolding catch_up
  catch_up-Keeps zero n entry = ground arith
  catch_up-Keeps (suc k) n entry =
      grind (arith, λ (m : RaftNode C) (e : Option (LogEntry C)). catch_up-Keeps k m e)

  start_election-Keeps : (now : ℕ) (n : RaftNode C) → Keeps n (start_election now n).0
  unfolding start_election
  start_election-Keeps now n = ground arith

  handle_append_reply-Keeps :
      (peer : String) (next_idx : ℤ) (sent now : ℕ) (resp : Option AppendReply) (n : RaftNode C)
      → Keeps n (handle_append_reply peer next_idx sent now resp n)
  unfolding handle_append_reply
  handle_append_reply-Keeps peer next_idx sent now none n = ground arith
  handle_append_reply-Keeps peer next_idx sent now (some resp) n = ground arith

  advance_commit_index-Keeps : (n : RaftNode C) → Keeps n (advance_commit_index n)
  unfolding advance_commit_index
  advance_commit_index-Keeps n = ground arith

  apply_round-Keeps :
      (n : RaftNode C) (entry : Option (LogEntry C)) → Keeps n (apply_round n entry).0
  unfolding apply_round
  apply_round-Keeps n entry = grind (arith, catch_up-Keeps)

  append_command-Keeps : (c : C) (n : RaftNode C) → Keeps n (append_command c n).0
  unfolding append_command
  append_command-Keeps c n = ground arith

  await_commit-Keeps : (i : ℕ) (n : RaftNode C) → Keeps n (await_commit i n).0
  unfolding await_commit
  await_commit-Keeps i n = ground arith

  -- Every event keeps the term from falling and, within a term, a vote that was given.
  pub step-Keeps : (e : Event C) (n : RaftNode C) → Keeps n (step e n)
  unfolding step wake
  step-Keeps (election_timer timeout now) n = ground (arith, start_election-Keeps now n)
  step-Keeps (votes_arrive term now results) n = finish_election-Keeps term now results n
  step-Keeps (vote_request now req) n = handle_request_vote-Keeps now req n
  step-Keeps (append_request now req) n = handle_append_entries-Keeps now req n
  step-Keeps (append_reply peer next_idx sent now resp) n =
      handle_append_reply-Keeps peer next_idx sent now resp n
  step-Keeps replicated n = advance_commit_index-Keeps n
  step-Keeps wakes n = ground arith
  step-Keeps (apply entry) n = apply_round-Keeps n entry
  step-Keeps (command c) n = append_command-Keeps c n
  step-Keeps (command_done i) n = await_commit-Keeps i n

  pub run-Keeps : (es : List (Event C)) (n : RaftNode C) → Keeps n (run es n)
  unfolding run
  run-Keeps [] n = ground arith
  run-Keeps (e ∷ es) n = Keeps-trans (step-Keeps e n) (run-Keeps es (step e n))

  -- A granted vote is in the node's term, which is the request's, and is written down.
  handle_request_vote_granted :
      (now : ℕ) (req : VoteRequest) (n : RaftNode C)
      → (handle_request_vote now req n).1.vote_granted ≡ true
      → ((handle_request_vote now req n).0.current_term ≡ req.term)
        × ((handle_request_vote now req n).0.voted_for ≡ some req.candidate_id)
  unfolding handle_request_vote
  handle_request_vote_granted now req n h = ground arith

  -- A node that has voted in a term grants a request of that term to its candidate alone.
  handle_request_vote_again :
      (now : ℕ) (req : VoteRequest) (c : String) (n : RaftNode C)
      → n.voted_for ≡ some c
      → req.term ≤ n.current_term
      → (handle_request_vote now req n).1.vote_granted ≡ true
      → (req.term ≡ n.current_term) × (req.candidate_id ≡ c)
  unfolding handle_request_vote
  handle_request_vote_again now req c n v t h = ground arith

  -- A node that grants two votes in one term, whatever events come between, and whatever logs and
  -- terms the requests show, grants them to the same candidate.
  pub vote_once :
      (now later : ℕ) (req again : VoteRequest) (es : List (Event C)) (n : RaftNode C)
      → again.term ≡ req.term
      → (handle_request_vote now req n).1.vote_granted ≡ true
      → (handle_request_vote later again (run es (handle_request_vote now req n).0)).1.vote_granted
        ≡ true
      → again.candidate_id ≡ req.candidate_id
  vote_once now later req again es n same first second =
      let granted = handle_request_vote_granted now req n first in
      let k = run-Keeps es (handle_request_vote now req n).0 in
      let m = run es (handle_request_vote now req n).0 in
      ground (
        arith,
        granted,
        k.kept,
        handle_request_vote_again later again req.candidate_id m,
        handle_request_vote_granted later again m second,
        handle_request_vote-Keeps later again m,
      )
