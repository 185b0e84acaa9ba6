-- ===== src/Raft/Tests.antt =====
-- Runs of the node of src/consensus/raft.py on small clusters.
use distributed_sync_system.Base.{
  All, ℕ, ◌<◌, ◌≤◌, ◌≡◌, refl, ◌≢◌, ◌⊎◌, inl, inr, true, false, Option, none, some, List, [], ◌∷◌,
  String, ℤ, pos, negsuc, arith, length, take, drop, get_elem?, returned, lookup, lookup_or, insert,
  add, contains, min_ℤ, max_ℤ, ◌+ℤ◌, ◌-ℤ◌, ◌<ℤ◌, str_dec, map, Distinct,
}
use distributed_sync_system.Metrics.{Registry, count_up, set_gauge, counter, gauge}
use distributed_sync_system.Raft.State.{
  RaftNode, LogEntry, init, last_log_index, last_log_term, step_down, majority, leader, candidate,
  waiting,
}
use distributed_sync_system.Raft.Vote.{
  VoteRequest, VoteReply, can_vote, log_ok, adopt_term, decide_vote, handle_request_vote,
}
use distributed_sync_system.Raft.Election.{
  reset_peers, start_election, become_leader, count_votes, elect, finish_election, election_due,
}
use distributed_sync_system.Raft.Append.{
  AppendRequest, AppendReply, hear_leader, check_log, cut_log, reply, advance_follower,
  store_entries, respond, handle_append_entries, get_item, slice_to, place, append_entries,
}
use distributed_sync_system.Raft.Replicate.{
  prev_term, entries_from, next_index_of, append_request as request_for, handle_append_reply,
  matching, resolve, acks, committable, find_committable, advance_commit_index,
}
use distributed_sync_system.Raft.Apply.{catch_up, call_back, wake, apply_round}
use distributed_sync_system.Raft.Client.{
  set_pending, pending_at, submit, append_command, await_commit,
}
use distributed_sync_system.Raft.Steps.{
  Event, election_timer, vote_request, append_request, apply, step, run,
}
use distributed_sync_system.Raft.Terms.{vote_once}
use distributed_sync_system.Raft.Merge.{merge, append_entries-merge}
use distributed_sync_system.Raft.Follower.{
  handle_append_entries_stale, handle_append_entries_matched, handle_append_entries_refused,
  handle_append_entries_retry,
}
use distributed_sync_system.Raft.Commit.{IsValid, Stable}
use distributed_sync_system.Raft.Commit.Runs.{run-Stable}
use distributed_sync_system.Raft.Applied.{apply_round_one, apply_round_again}
use distributed_sync_system.Base.{true, false}
use distributed_sync_system.Raft.Majority.{majority_overlap}
use distributed_sync_system.Raft.Elected.{Granted, finish_election_wins, become_leader_indices}
use distributed_sync_system.Raft.Committing.{
  CanCommit, advance_commit_index_lem, advance_commit_index_tells_one,
}
use distributed_sync_system.Raft.Replicated.{replicate_round}

program : Unit {0}
unfolding str_dec lookup lookup_or insert add contains min_ℤ max_ℤ ◌+ℤ◌ ◌-ℤ◌ count_up set_gauge
    counter gauge init last_log_index last_log_term step_down majority can_vote log_ok adopt_term
    decide_vote handle_request_vote reset_peers start_election become_leader count_votes elect
    finish_election election_due hear_leader check_log cut_log reply advance_follower store_entries
    respond handle_append_entries get_item slice_to place append_entries prev_term entries_from
    next_index_of request_for handle_append_reply matching resolve acks committable find_committable
    advance_commit_index catch_up call_back wake apply_round set_pending pending_at submit
    append_command await_commit step run merge
program = tt

abbrev registry : Registry
registry = record { counters = []; gauges = []; histograms = [] }

-- A node that just started, in a cluster of three.
abbrev fresh : RaftNode ℕ
unfolding program
fresh = init "a" ("b" ∷ "c" ∷ []) 0 registry

abbrev entry : ℕ → ℕ → ℕ → LogEntry ℕ
entry term index c = record { term = term; index = index; command = c }

abbrev ask : String → VoteRequest
ask c = record { term = 3; candidate_id = c; last_log_index = negsuc 0; last_log_term = 0 }

-- Two entries, the first committed and applied.
abbrev follows : RaftNode ℕ
follows = record (init "a" ("b" ∷ "c" ∷ []) 0 registry) {
  current_term = 2;
  log = entry 1 0 10 ∷ entry 1 1 11 ∷ [];
  commit_index = pos 0;
  last_applied = pos 0;
}

abbrev send : ℤ → ℕ → List (LogEntry ℕ) → AppendRequest ℕ
send prev prev_term entries = record {
  term = 2;
  leader_id = "b";
  prev_log_index = prev;
  prev_log_term = prev_term;
  entries = entries;
  leader_commit = pos 1;
}

follows-IsValid : IsValid follows
unfolding program
follows-IsValid = record { low = ground arith; applied = ground arith; high = ground arith }

-- A leader with two entries that one peer is known to hold.
abbrev leads : RaftNode ℕ
leads = record follows {
  state = leader;
  log = entry 1 0 10 ∷ entry 2 1 11 ∷ entry 2 2 12 ∷ [];
  next_index = ("b", pos 3) ∷ ("c", pos 1) ∷ [];
  match_index = ("b", pos 2) ∷ ("c", pos 0) ∷ [];
  pending = (1, waiting) ∷ (2, waiting) ∷ [];
}

vote_once_example : (ask "b").candidate_id ≡ "b"
unfolding program
vote_once_example =
    vote_once 1 2 (ask "b") (ask "b") (election_timer 5 3 ∷ vote_request 3 (ask "c") ∷ []) fresh
      refl refl refl

second_vote_refused :
    (handle_request_vote 2 (ask "c") (handle_request_vote 1 (ask "b") fresh).0).1.vote_granted
    ≡ false
unfolding program
second_vote_refused = refl

append_entries-merge_example :
    append_entries (pos 1) (entry 2 1 21 ∷ entry 2 2 22 ∷ []) follows.log
    ≡ (entry 1 0 10 ∷ entry 2 1 21 ∷ entry 2 2 22 ∷ [], returned tt)
unfolding program
append_entries-merge_example =
    append_entries-merge 1 (entry 2 1 21 ∷ entry 2 2 22 ∷ []) follows.log (omega arith)

stale_request :
    handle_append_entries 5 (record (send (pos 1) 1 []) { term = 1 }) follows
    ≡ (follows, returned (record { term = 2; success = false }))
unfolding program
stale_request =
    handle_append_entries_stale 5 (record (send (pos 1) 1 []) { term = 1 }) follows (omega arith)

matched_request :
    let r = handle_append_entries 5 (send (pos 0) 1 (entry 2 1 21 ∷ [])) follows in
    (r.1 ≡ returned (record { term = 2; success = true }))
    × (r.0.log ≡ entry 1 0 10 ∷ entry 2 1 21 ∷ [])
    × (r.0.commit_index ≡ pos 1)
    × (r.0.current_term ≡ 2)
    × (r.0.state ≢ candidate)
    × (r.0.current_leader ≡ some "b")
unfolding program
matched_request =
    handle_append_entries_matched 1 5 (send (pos 0) 1 (entry 2 1 21 ∷ [])) follows (omega arith)
      refl (entry 1 0 10, refl, refl)

refused_request :
    let r = handle_append_entries 5 (send (pos 1) 2 []) follows in
    (r.1 ≡ returned (record { term = 2; success = false }))
    × (r.0.log ≡ entry 1 0 10 ∷ [])
    × (r.0.commit_index ≡ pos 0)
unfolding program
refused_request =
    handle_append_entries_refused 1 5 (send (pos 1) 2 []) follows (omega arith) refl
      (λ (e, h, q). ground (arith))

handle_append_entries_retry_example :
    let m = (handle_append_entries 5 (send (pos 0) 1 (entry 2 1 21 ∷ [])) follows).0 in
    let r = handle_append_entries 6 (send (pos 0) 1 (entry 2 1 21 ∷ [])) m in
    (r.1 ≡ returned (record { term = 2; success = true })) × (r.0.log ≡ m.log)
handle_append_entries_retry_example =
    handle_append_entries_retry 1 5 6 (send (pos 0) 1 (entry 2 1 21 ∷ [])) follows (omega arith)
      refl (entry 1 0 10, refl, refl)

-- A candidate asks for a vote, a leader replaces the uncommitted entry, and the node applies it.
abbrev events : List (Event ℕ)
events =
    vote_request 4
      (record { term = 2; candidate_id = "c"; last_log_index = pos 1; last_log_term = 1 })
    ∷ append_request 5 (send (pos 0) 1 (entry 2 1 21 ∷ []))
    ∷ apply none
    ∷ []

run-Stable_example : IsValid (run events follows) × Stable follows (run events follows)
unfolding program
run-Stable_example =
    run-Stable events follows
      (tt, ((1, (refl, inr (inl (omega arith, (entry 1 0 10, refl, refl), tt)))), (tt, tt)))
      follows-IsValid

apply_round_one_example :
    (e : LogEntry ℕ) × (get_elem? follows.log 1 ≡ some e)
    × (apply_round (record follows { commit_index = pos 1; last_applied = negsuc 0 }) none
        ≡ (record follows { commit_index = pos 1; last_applied = pos 1 }, some e, returned e))
unfolding program
apply_round_one_example =
    apply_round_one 1 (record follows { commit_index = pos 1; last_applied = negsuc 0 }) none
      (record { low = ground arith; applied = ground arith; high = ground arith }) refl
      (ground arith)

twice_applied :
    apply_round follows (some (entry 1 0 10))
    ≡ (follows, some (entry 1 0 10), returned (entry 1 0 10))
unfolding program
twice_applied = apply_round_again follows (some (entry 1 0 10)) refl

two_quorums :
    (v : String) × (contains v ("a" ∷ "b" ∷ []) ≡ true) × (contains v ("b" ∷ "c" ∷ []) ≡ true)
unfolding program
two_quorums =
    majority_overlap ("b" ∷ "c" ∷ []) ("a" ∷ "b" ∷ "c" ∷ []) ("a" ∷ "b" ∷ []) ("b" ∷ "c" ∷ []) refl
      (refl, (refl, tt)) (refl, (refl, tt)) (refl, (refl, tt)) (refl, (refl, tt)) (omega arith)
      (omega arith)

abbrev candidate_node : RaftNode ℕ
unfolding program
candidate_node = (start_election 3 fresh).0

abbrev votes : List (String × Option VoteReply)
votes = ("b", none) ∷ ("c", some (record { term = 1; vote_granted = true })) ∷ []

finish_election_wins_example :
    let m = finish_election 1 4 votes candidate_node in
    (candidate_node.current_term ≡ 1)
    × (m.current_term ≡ 1)
    × (majority candidate_node.peers ≤ length m.votes_received)
    × Distinct m.votes_received
    × All
        (λ v. (contains v candidate_node.votes_received ≡ true) ⊎ Granted 1 votes v)
        m.votes_received
    × (m.log ≡ candidate_node.log)
unfolding program
finish_election_wins_example =
    finish_election_wins 1 4 votes candidate_node (refl, tt) (λ q. cc) refl

new_leader_indices :
    (lookup "b" (become_leader follows).next_index ≡ some (pos 2))
    × (lookup "b" (become_leader follows).match_index ≡ some (negsuc 0))
unfolding program
new_leader_indices = become_leader_indices follows "b" refl

advance_commit_index_lem_example :
    let m = advance_commit_index leads in
    ((i : ℕ) × (m.commit_index ≡ pos i)
      × (leads.commit_index <ℤ pos i)
      × CanCommit i leads
      × ((j : ℕ) → i < j → ¬ CanCommit j leads))
    ⊎ (m ≡ leads) × ((j : ℕ) → leads.commit_index <ℤ pos j → ¬ CanCommit j leads)
advance_commit_index_lem_example = advance_commit_index_lem leads refl

-- The client that waits for entry 1 is not told.
tells_the_waiting_caller : pending_at 1 (advance_commit_index leads).pending ≡ some waiting
unfolding program
tells_the_waiting_caller = advance_commit_index_tells_one 2 1 leads (ground arith) refl

abbrev send_rest : AppendRequest ℕ
send_rest = record {
  term = 2;
  leader_id = "a";
  prev_log_index = pos 0;
  prev_log_term = 1;
  entries = entry 2 1 11 ∷ entry 2 2 12 ∷ [];
  leader_commit = pos 0;
}

replicate_round_example :
    let r = handle_append_entries 5 send_rest follows in
    let reply : AppendReply = record { term = 2; success = true } in
    (r.1 ≡ returned reply)
    × (map (λ e. e.term) (take 2 (drop 1 r.0.log)) ≡ 2 ∷ 2 ∷ [])
    × (r.0.commit_index ≡ pos 0)
    × (next_index_of "c" (handle_append_reply "c" (pos 1) 2 6 (some reply) leads) ≡ pos 3)
unfolding program
replicate_round_example =
    replicate_round "c" leads follows 1 5 6 send_rest refl refl (omega arith) (ground arith) refl
      (omega arith) (entry 1 0 10, refl, refl)
