-- ===== src/Raft/Safety/Tests.antt =====
-- An election in a cluster of three nodes of src/consensus/raft.py.
use distributed_sync_system.Base.{
  ℕ, ◌≡◌, refl, sym, subst, inl, inr, true, some, List, [], ◌∷◌, String, All, str_dec, contains,
  add, ◌-ℤ◌,
}
use distributed_sync_system.Metrics.{count_up, set_gauge, counter, gauge}
use distributed_sync_system.Raft.State.{init, last_log_index, last_log_term, step_down, majority}
use distributed_sync_system.Raft.Vote.{
  can_vote, log_ok, adopt_term, decide_vote, handle_request_vote,
}
use distributed_sync_system.Raft.Election.{
  reset_peers, start_election, become_leader, count_votes, elect, finish_election, election_due,
}
use distributed_sync_system.Raft.Steps.{Event, election_timer, votes_arrive, vote_request, step}
use distributed_sync_system.Raft.Safety.{History, IsAnswered, IsCluster, GrantedIn, one_leader}

program : Unit {0}
unfolding str_dec contains add count_up set_gauge counter gauge init last_log_index last_log_term
    step_down majority can_vote log_ok adopt_term decide_vote handle_request_vote reset_peers
    start_election become_leader count_votes elect finish_election election_due step ◌-ℤ◌
program = tt

-- Node `a` starts an election and wins it; the others grant it their votes.
abbrev events_of : {v : String} → Dec (v ≡ "a") → List (Event ℕ)
events_of (yes own) =
    election_timer 5 6
    ∷ votes_arrive 1 8 (("b", some (record { term = 1; vote_granted = true })) ∷ [])
    ∷ []
events_of (no other) =
    vote_request 7 (record {
      term = 1;
      candidate_id = "a";
      last_log_index = last_log_index {C = ℕ} [];
      last_log_term = 0;
    })
    ∷ []

abbrev history : String → History ℕ
unfolding init
history v = record {
  start = init v ("b" ∷ "c" ∷ []) 0 (record { counters = []; gauges = []; histograms = [] });
  events = events_of (str_dec v "a");
}

abbrev cluster : List String
cluster = "a" ∷ "b" ∷ "c" ∷ []

granted_by :
    (v : String)
    → v ≡ "b"
    → (contains v cluster ≡ true) × GrantedIn "a" 1 (history v).events (history v).start
unfolding program
granted_by v e =
    subst (λ w. (contains w cluster ≡ true) × GrantedIn "a" 1 (history w).events (history w).start)
      (sym e) (refl, inl (refl, refl, refl))

answered : {c : String} (d : Dec (c ≡ "a")) → All (IsAnswered history cluster c) (events_of d)
answered {c} (yes own) = (
  tt,
  (
    (λ v g. elim g [
      | inl (e, _, _) ↦
          subst
            (λ d. (contains v cluster ≡ true) × GrantedIn d 1 (history v).events (history v).start)
            (sym own) (granted_by v e)
      | inr never ↦ absurd never
    ]),
    tt,
  ),
)
answered (no other) = (tt, tt)

net : IsCluster history cluster
unfolding init
net = record {
  named = λ c. refl;
  follows = λ c. refl;
  uncounted = λ c. refl;
  sized = λ c m. refl;
  answered = λ c m. answered (str_dec c "a");
}

one_leader_example : ◌≡◌ {A = String} "a" "a"
unfolding program
one_leader_example =
    one_leader history cluster "a" "a" 1 net refl refl (inr (inr (refl, refl)))
      (inr (inr (refl, refl)))
