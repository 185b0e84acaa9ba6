-- ===== src/Raft/Matching/Events.antt =====
-- Log Matching over the events of a node (src/consensus/raft.py).
use distributed_sync_system.Base.{
  ℕ, zero, suc, ◌≤◌, ◌≡◌, ◌≢◌, refl, sym, subst, inl, inr, some, Option, List, [], ◌∷◌, ◌++◌,
  String, pos, arith, length, get_elem?, Bool-cases, Option-cases, ltb_ℤ, ◌+ℤ◌, ◌-ℤ◌, pos_part, ◌⊎◌,
}
use distributed_sync_system.Raft.State.{RaftNode, LogEntry}
use distributed_sync_system.Raft.Append.{get_item}
use distributed_sync_system.Raft.Apply.{wake, apply_round, catch_up}
use distributed_sync_system.Raft.Client.{append_command}
use distributed_sync_system.Raft.Replicate.{
  append_request as build_request, next_index_of, advance_commit_index,
}
use distributed_sync_system.Raft.Steps.{
  Event, election_timer, votes_arrive, vote_request, append_request, append_reply, replicated,
  wakes, apply, command, command_done, step,
}
use distributed_sync_system.Raft.Commit.{
  handle_request_vote-Quiet, finish_election-Quiet, start_election-Quiet, handle_append_reply-Quiet,
  await_commit-Quiet,
}
use distributed_sync_system.Raft.Matching.{
  LogsMatch, Apart, Forked, Forked-LogsMatch, LogsMatch-Forked,
}
use distributed_sync_system.Raft.Matching.Handler.{handle_append_entries-LogsMatch}

module _ {C : Type 0} where
  -- Where an event gets its entries from: a request was built by a leader for a log that matches the node's and
  -- `g`, and when a command comes, `g` has no entry of the node's term at the end of the node's log.
  abbrev pub Sound : Event C → RaftNode C → List (LogEntry C) → Type 0
  Sound (append_request now req) n g =
      (peer : String) × (l : RaftNode C) × (k : ℕ) × (next_index_of peer l ≡ pos k)
      × (k ≤ length l.log)
      × (build_request peer l ≡ some req)
      × LogsMatch n.log l.log
      × LogsMatch g l.log
  Sound (command c) n g =
      (y : LogEntry C) → get_elem? g (length n.log) ≡ some y → y.term ≢ n.current_term
  Sound _ n g = Unit {0}

  Apart-snoc :
      (g log : List (LogEntry C)) (e : LogEntry C)
      → ((y : LogEntry C) → get_elem? g (length log) ≡ some y → y.term ≢ e.term)
      → Apart g log
      → Apart g (log ++ e ∷ [])
  Apart-snoc [] log e h a = tt
  Apart-snoc (x ∷ g) [] e h a = (h x refl, apart_end g)
    where
      apart_end : (g : List (LogEntry C)) → Apart g []
      apart_end [] = tt
      apart_end (y ∷ g) = tt
  Apart-snoc (x ∷ g) (o ∷ log) e h (n, a) = (n, Apart-snoc g log e h a)

  Forked-snoc :
      (g log : List (LogEntry C)) (e : LogEntry C)
      → ((y : LogEntry C) → get_elem? g (length log) ≡ some y → y.term ≢ e.term)
      → Forked g log
      → Forked g (log ++ e ∷ [])
  Forked-snoc [] log e h f = tt
  Forked-snoc (x ∷ g) [] e h f = inr (Apart-snoc (x ∷ g) [] e h tt)
  Forked-snoc (x ∷ g) (o ∷ log) e h (inl (s, f)) = inl (s, Forked-snoc g log e h f)
  Forked-snoc (x ∷ g) (o ∷ log) e h (inr (n, a)) = inr (n, Apart-snoc g log e h a)

  catch_up-log :
      (k : ℕ) (n : RaftNode C) (entry : Option (LogEntry C)) → (catch_up k n entry).0.log ≡ n.log
  unfolding catch_up
  catch_up-log zero n entry = refl
  catch_up-log (suc k) n entry = elim (Bool-cases (ltb_ℤ n.last_applied n.commit_index)) [
    | inl e ↦ elim (Option-cases (get_item n.log (n.last_applied +ℤ pos 1))) [
      | inl q ↦ rw (e, catch_up) (rw (q, catch_up) refl)
      | inr (x, q) ↦
          rw (e, catch_up)
            (rw (q, catch_up)
              (catch_up-log k (record n { last_applied = n.last_applied +ℤ pos 1 }) (some x)))
    ]
    | inr e ↦ ground arith
  ]

  apply_round-log :
      (n : RaftNode C) (entry : Option (LogEntry C)) → (apply_round n entry).0.log ≡ n.log
  unfolding apply_round
  apply_round-log n entry = catch_up-log (pos_part (n.commit_index -ℤ n.last_applied)) n entry

  advance_commit_index-log : (n : RaftNode C) → (advance_commit_index n).log ≡ n.log
  unfolding advance_commit_index
  advance_commit_index-log n = ground arith

  election_timer-log :
      (timeout now : ℕ) (n : RaftNode C) → (step (election_timer timeout now) n).log ≡ n.log
  unfolding step
  election_timer-log timeout now n = ground (arith, start_election-Quiet now n)

  command-log :
      (c : C) (n : RaftNode C)
      → ((append_command c n).0.log ≡ n.log)
        ⊎ ((append_command c n).0.log
            ≡ n.log ++ record { term = n.current_term; index = length n.log; command = c } ∷ [])
  unfolding append_command
  command-log c n = ground arith

  command-LogsMatch :
      (c : C) (n : RaftNode C) (g : List (LogEntry C))
      → Sound (command c) n g
      → LogsMatch g n.log
      → LogsMatch g (append_command c n).0.log
  command-LogsMatch c n g s m = elim (command-log c n) [
    | inl e ↦ subst (LogsMatch g) (sym e) m
    | inr e ↦
        let new : LogEntry C = record {
          term = n.current_term;
          index = length n.log;
          command = c;
        } in
        subst (LogsMatch g) (sym e) (
          Forked-LogsMatch g (n.log ++ new ∷ [])
            (Forked-snoc g n.log new s (LogsMatch-Forked g n.log m)))
  ]

  -- Whatever event a node has, from a request of a leader whose log at the time of building it matches, or with a
  -- command in a term whose entries no other log has at that place: another log that matched the node's log
  -- matches it afterwards, also where the node cuts its log or replaces entries.
  pub step-LogsMatch :
      (e : Event C) (n : RaftNode C) (g : List (LogEntry C))
      → Sound e n g
      → LogsMatch g n.log
      → LogsMatch g (step e n).log
  unfolding step wake
  step-LogsMatch (election_timer timeout now) n g s m =
      subst (LogsMatch g) (sym (election_timer-log timeout now n)) m
  step-LogsMatch (votes_arrive term now results) n g s m =
      subst (LogsMatch g) (sym (finish_election-Quiet term now results n).same_log) m
  step-LogsMatch (vote_request now req) n g s m =
      subst (LogsMatch g) (sym (handle_request_vote-Quiet now req n).same_log) m
  step-LogsMatch (append_request now req) n g (peer, l, k, at, h, q, x, y) m =
      (handle_append_entries-LogsMatch peer l n k now req g at h q x y m).1
  step-LogsMatch (append_reply peer next_idx sent now resp) n g s m =
      subst (LogsMatch g) (sym (handle_append_reply-Quiet peer next_idx sent now resp n).same_log) m
  step-LogsMatch replicated n g s m = subst (LogsMatch g) (sym (advance_commit_index-log n)) m
  step-LogsMatch wakes n g s m = m
  step-LogsMatch (apply entry) n g s m = subst (LogsMatch g) (sym (apply_round-log n entry)) m
  step-LogsMatch (command c) n g s m = command-LogsMatch c n g s m
  step-LogsMatch (command_done i) n g s m =
      subst (LogsMatch g) (sym (await_commit-Quiet i n).same_log) m
