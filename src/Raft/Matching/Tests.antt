-- ===== src/Raft/Matching/Tests.antt =====
-- Requests between logs that match (src/consensus/raft.py).
use distributed_sync_system.Base.{
  ite, negsuc, insert, ◌*◌, ◌+◌, ◌-ℤ◌, lookup_or, str_dec, ℕ, ◌≡◌, ◌≢◌, ◌⊎◌, refl, inl, inr, List,
  [], ◌∷◌, arith, pos, take, lookup,
}
use distributed_sync_system.Raft.State.{RaftNode, LogEntry, leader, follower, init}
use distributed_sync_system.Raft.Append.{AppendRequest, handle_append_entries}
use distributed_sync_system.Raft.Replicate.{
  append_request as build_request, next_index_of, prev_term, entries_from,
}
use distributed_sync_system.Raft.Matching.{LogsMatch, Forked-LogsMatch}
use distributed_sync_system.Metrics.{set_gauge}
use distributed_sync_system.Raft.Client.{append_command, submit}
use distributed_sync_system.Raft.Steps.{append_request, command, step}
use distributed_sync_system.Raft.Matching.Cluster.{
  Sent, Cluster, IsFresh, update, Run, stays, goes, sends, acts,
}
use distributed_sync_system.Raft.Matching.Runs.{run-LogsMatch}
use distributed_sync_system.Raft.Matching.Handler.{accepted, handle_append_entries-LogsMatch}

abbrev entry : ℕ → ℕ → LogEntry ℕ
entry t i = record { term = t; index = i; command = 10 * t + i }

abbrev start : RaftNode ℕ
unfolding init
start = init "n1" ("n2" ∷ "n3" ∷ []) 0 (record { counters = []; gauges = []; histograms = [] })

-- The leader of term 3 knows that the follower has its first entry.
abbrev leads : RaftNode ℕ
leads = record start {
  state = leader;
  current_term = 3;
  log = entry 1 0 ∷ entry 3 1 ∷ entry 3 2 ∷ [];
  next_index = ("n2", pos 1) ∷ [];
}

-- The follower has two entries of term 2, which nobody else has but the third log.
abbrev follows : RaftNode ℕ
follows = record start {
  node_id = "n2";
  current_term = 2;
  log = entry 1 0 ∷ entry 2 1 ∷ entry 2 2 ∷ [];
}

abbrev third : List (LogEntry ℕ)
third = entry 1 0 ∷ entry 2 1 ∷ []

abbrev request : AppendRequest ℕ
request = record {
  term = 3;
  leader_id = "n1";
  prev_log_index = pos 0;
  prev_log_term = 1;
  entries = entry 3 1 ∷ entry 3 2 ∷ [];
  leader_commit = start.commit_index;
}

handle_append_entries-LogsMatch_example :
    let r = handle_append_entries 5 request follows in
    (((r.1 ≡ accepted request) × (take 3 r.0.log ≡ leads.log)) ⊎ (r.1 ≢ accepted request))
    × LogsMatch third r.0.log
unfolding build_request next_index_of prev_term entries_from lookup lookup_or str_dec ◌-ℤ◌ init
handle_append_entries-LogsMatch_example =
    handle_append_entries-LogsMatch "n2" leads follows 1 5 request third refl (ground arith) refl
      (Forked-LogsMatch follows.log leads.log (inl (refl, inr (ground arith, (ground arith, tt)))))
      (Forked-LogsMatch third leads.log (inl (refl, inr (ground arith, tt))))
      (Forked-LogsMatch third follows.log (inl (refl, inl (refl, tt))))

-- A leader that has just been elected, and others, with empty logs.
abbrev elected : Cluster ℕ
elected = record {
  node = λ w. record start {
    node_id = w;
    current_term = 1;
    state = ite (str_dec w "n1") leader follower;
    next_index = ("n2", pos 0) ∷ [];
  };
  sent = [];
}

elected-IsFresh : (i t : ℕ) → IsFresh i t elected
unfolding init
elected-IsFresh i t = record {
  in_nodes = λ w y h. absurd (cc h);
  in_sent = λ k r y h. absurd (cc h);
}

program : Unit {0}
unfolding step append_command submit next_index_of build_request prev_term entries_from lookup
    lookup_or str_dec ◌-ℤ◌ set_gauge init insert
program = tt

abbrev asked : Cluster ℕ
asked = record elected { node = update "n1" (step (command 7) (elected.node "n1")) elected.node }

abbrev first : AppendRequest ℕ
first = record {
  term = 1;
  leader_id = "n1";
  prev_log_index = negsuc 0;
  prev_log_term = 0;
  entries = record { term = 1; index = 0; command = 7 } ∷ [];
  leader_commit = negsuc 0;
}

first-Sent : Sent "n2" (asked.node "n1") first
unfolding program
first-Sent = record { from = 0; at = refl; within = omega arith; built = refl }

abbrev asking : Cluster ℕ
asking = record asked {
  sent =
      record { peer = "n2"; sender = asked.node "n1"; message = first; is_sent = first-Sent } ∷ [];
}

abbrev answered : Cluster ℕ
answered = record asking {
  node = update "n2" (step (append_request 5 first) (asking.node "n2")) asking.node;
}

history : Run elected answered
history = goes elected asked answered (acts elected "n1" (command 7) (elected-IsFresh _ _)) (
    goes asked asking answered (sends asked "n1" "n2" first first-Sent) (
      goes asking answered answered (acts asking "n2" (append_request 5 first) (0, _, refl, refl))
        (stays answered)))

run-LogsMatch_example : LogsMatch (answered.node "n1").log (answered.node "n2").log
unfolding init
run-LogsMatch_example = run-LogsMatch elected answered "n1" "n2" (λ u. refl) refl history
