-- ===== src/Raft/Leaders.antt =====
-- The leaders of a cluster of nodes of src/consensus/raft.py: a node that leads has the votes of a majority, in its
-- term, and each was cast.
use distributed_sync_system.Base.{
  ℕ, suc, ◌≤◌, ◌≡◌, ◌≢◌, refl, sym, ap, subst, ◌∙◌, inl, inr, Bool, true, false, ◌&&◌, ◌==◌, Option,
  List, String, arith, length, contains, str_dec, Distinct, Bool-cases,
}
use distributed_sync_system.Raft.State.{RaftNode, follower, leader, majority}
use distributed_sync_system.Raft.Vote.{VoteReply}
use distributed_sync_system.Raft.Election.{
  election_due, start_election, finish_election, count_votes, elect, is_candidate,
}
use distributed_sync_system.Raft.Apply.{wake}
use distributed_sync_system.Raft.Steps.{
  Event, election_timer, votes_arrive, vote_request, append_request, append_reply, replicated,
  wakes, apply, command, command_done, step,
}
use distributed_sync_system.Raft.Terms.{step-Keeps}
use distributed_sync_system.Raft.Elected.{
  Granted, count_votes_lem, count_votes-Distinct, count_votes_same, elect_leader,
}
use distributed_sync_system.Raft.Steady.{
  Steady, handle_request_vote-Steady, handle_append_entries-Steady, handle_append_reply-Steady,
  advance_commit_index-Steady, append_command-Steady, await_commit-Steady, apply_round-Steady,
}

module _ {C : Type 0} (P : String → ℕ → Type 0) where
  -- The votes that a node counts are of different voters; while it is no follower each has the property `P` in its
  -- term, and when it leads they are enough.
  pub record IsBacked (n : RaftNode C) : Type 0 where
    pub distinct : Distinct n.votes_received
    pub backed :
        n.state ≢ follower → (v : String) → contains v n.votes_received ≡ true → P v n.current_term
    pub enough : n.state ≡ leader → majority n.peers ≤ length n.votes_received

  Steady-IsBacked : (n m : RaftNode C) → Steady n m → m.peers ≡ n.peers → IsBacked n → IsBacked m
  Steady-IsBacked n m s p b = record {
    distinct = subst Distinct (sym s.same_votes) b.distinct;
    backed = λ h v c. elim s.goes_on [
      | inl f ↦ absurd (h f)
      | inr (same, t) ↦
          subst (P v) (sym t)
            (b.backed (λ f. h (same ∙ f)) v (ap (contains v) (sym s.same_votes) ∙ c))
    ];
    enough = λ l. elim s.goes_on [
      | inl f ↦ absurd (cc (f, l))
      | inr (same, t) ↦ ground (arith, s.same_votes, p, b.enough (sym same ∙ l))
    ];
  }

  elect_same :
      (n : RaftNode C)
      → let m = elect (n, false) in
        (m.votes_received ≡ n.votes_received)
        × (m.current_term ≡ n.current_term)
        × (m.peers ≡ n.peers)
  unfolding elect
  elect_same n = ground arith

  elect-IsBacked :
      (m : RaftNode C) (stopped : Bool)
      → stopped ≡ false
      → m.state ≢ leader
      → Distinct m.votes_received
      → ((v : String) → contains v m.votes_received ≡ true → P v m.current_term)
      → IsBacked (elect (m, stopped))
  elect-IsBacked m true e s d all = absurd (cc e)
  elect-IsBacked m false e s d all =
      let (votes, terms, peers) = elect_same m in
      record {
        distinct = subst Distinct (sym votes) d;
        backed = λ _ v c. subst (P v) (sym terms) (all v (ap (contains v) (sym votes) ∙ c));
        enough = λ l. ground (arith, votes, peers, (elect_leader m false s l).1);
      }

  stopped-IsBacked :
      (m : RaftNode C) (stopped : Bool)
      → stopped ≡ true
      → m.state ≡ follower
      → Distinct m.votes_received
      → IsBacked (elect (m, stopped))
  unfolding elect
  stopped-IsBacked m false e s d = absurd (cc e)
  stopped-IsBacked m true e s d = record {
    distinct = d;
    backed = λ h. absurd (h s);
    enough = λ l. absurd (cc (s, l));
  }

  finish_election-IsBacked :
      (term now : ℕ) (rs : List (String × Option VoteReply)) (n : RaftNode C)
      → ((v : String) → Granted term rs v → P v term)
      → IsBacked n
      → IsBacked (finish_election term now rs n)
  unfolding finish_election
  finish_election-IsBacked term now rs n vouched b =
      elim (Bool-cases (is_candidate n.state && n.current_term == term)) [
        | inl e ↦
            let r = count_votes now rs n in
            let t : n.current_term ≡ term = ground arith in
            let runs : n.state ≢ follower = λ f. ground (arith, f, e) in
            let all : (v : String) → contains v r.0.votes_received ≡ true → P v n.current_term =
              λ v c. elim (count_votes_lem now rs n v c) [
                | inl old ↦ b.backed runs v old
                | inr g ↦ subst (P v) (sym t) (vouched v (subst (λ u. Granted u rs v) t g))
              ] in
            let dist = count_votes-Distinct now rs n b.distinct in
            elim (count_votes_same now rs n) [
              | inl (ended, terms, ps, states, _) ↦
                  rw (e, finish_election)
                    (elect-IsBacked r.0 r.1 ended (λ l. ground (arith, l, states, e)) dist
                      (λ v c. subst (P v) (sym terms) (all v c)))
              | inr (ended, _, f) ↦ rw (e, finish_election) (stopped-IsBacked r.0 r.1 ended f dist)
            ]
        | inr e ↦ rw (e, finish_election) b
      ]

  -- What is to hold of the votes that an event counts.
  abbrev pub IsVouched : Event C → RaftNode C → Type 0
  IsVouched (election_timer timeout now) n =
      election_due timeout now n ≡ true → P n.node_id (suc n.current_term)
  IsVouched (votes_arrive term now rs) n = (v : String) → Granted term rs v → P v term
  IsVouched _ n = Unit {0}

  start_election-IsBacked :
      (now : ℕ) (n : RaftNode C)
      → P n.node_id (suc n.current_term)
      → IsBacked (start_election now n).0
  unfolding start_election contains
  start_election-IsBacked now n own = record {
    distinct = (refl, tt);
    backed = λ h v c. elim (str_dec v n.node_id) [
      | yes e ↦ subst (λ w. P w (suc n.current_term)) (sym e) own
      | no d ↦ absurd (ground (arith, c, d))
    ];
    enough = λ l. absurd (cc l);
  }

  election_timer-IsBacked :
      (timeout now : ℕ) (n : RaftNode C)
      → (election_due timeout now n ≡ true → P n.node_id (suc n.current_term))
      → IsBacked n
      → IsBacked (step (election_timer timeout now) n)
  unfolding step
  election_timer-IsBacked timeout now n own b = elim (Bool-cases (election_due timeout now n)) [
    | inl e ↦ rw (e, step) (start_election-IsBacked now n (own e))
    | inr e ↦ rw (e, step) b
  ]

  pub step-IsBacked :
      (e : Event C) (n : RaftNode C) → IsVouched e n → IsBacked n → IsBacked (step e n)
  unfolding step wake
  step-IsBacked (election_timer timeout now) n own b = election_timer-IsBacked timeout now n own b
  step-IsBacked (votes_arrive term now rs) n v b = finish_election-IsBacked term now rs n v b
  step-IsBacked (vote_request now req) n v b =
      Steady-IsBacked n _ (handle_request_vote-Steady now req n)
        (step-Keeps (vote_request now req) n).same_peers b
  step-IsBacked (append_request now req) n v b =
      Steady-IsBacked n _ (handle_append_entries-Steady now req n)
        (step-Keeps (append_request now req) n).same_peers b
  step-IsBacked (append_reply peer next_idx sent now resp) n v b =
      Steady-IsBacked n _ (handle_append_reply-Steady peer next_idx sent now resp n)
        (step-Keeps (append_reply peer next_idx sent now resp) n).same_peers b
  step-IsBacked replicated n v b =
      Steady-IsBacked n _ (advance_commit_index-Steady n) (step-Keeps replicated n).same_peers b
  step-IsBacked wakes n v b = record { distinct = b.distinct; backed = b.backed; enough = b.enough }
  step-IsBacked (apply entry) n v b =
      Steady-IsBacked n _ (apply_round-Steady n entry) (step-Keeps (apply entry) n).same_peers b
  step-IsBacked (command c) n v b =
      Steady-IsBacked n _ (append_command-Steady c n) (step-Keeps (command c) n).same_peers b
  step-IsBacked (command_done i) n v b =
      Steady-IsBacked n _ (await_commit-Steady i n) (step-Keeps (command_done i) n).same_peers b
