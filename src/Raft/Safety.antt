-- ===== src/Raft/Safety.antt =====
-- The elections of a whole cluster of nodes of src/consensus/raft.py, each with its own history of
-- events.
mod Tests
use distributed_sync_system.Base.{
  ℕ, suc, ◌≤◌, ◌+◌, ◌≡◌, refl, sym, subst, ◌∙◌, ap, ◌⊎◌, inl, inr, true, some, List, [], ◌∷◌,
  String, str_dec, arith, length, All, contains, Distinct,
}
use distributed_sync_system.Raft.State.{RaftNode, follower, leader, majority}
use distributed_sync_system.Raft.Vote.{VoteRequest, handle_request_vote}
use distributed_sync_system.Raft.Election.{start_election, election_due}
use distributed_sync_system.Raft.Steps.{
  Event, election_timer, votes_arrive, vote_request, append_request, append_reply, replicated,
  wakes, apply, command, command_done, step,
}
use distributed_sync_system.Raft.Terms.{Keeps, Keeps-trans, step-Keeps}
use distributed_sync_system.Raft.Elected.{Granted, All-of_contains}
use distributed_sync_system.Raft.Leaders.{IsBacked, IsVouched, step-IsBacked}
use distributed_sync_system.Raft.Majority.{majority_overlap}

All-contains :
    (P : String → Type 0) (xs : List String) (x : String) → All P xs → contains x xs ≡ true → P x
unfolding contains
All-contains P [] x a h = absurd (cc)
All-contains P (y ∷ xs) x a h = elim (str_dec x y) [
  | yes e ↦ subst P (sym e) a.0
  | no n ↦ All-contains P xs x a.1 (ground arith)
]

-- A node's history: its state at the start, and the events since.
pub record History (C : Type 0) : Type 0 where
  pub start : RaftNode C
  pub events : List (Event C)

module _ {C : Type 0} where
  -- The node's vote of the term is for the candidate.
  pub record Votes (candidate : String) (term : ℕ) (n : RaftNode C) : Type 0 where
    pub in_term : n.current_term ≡ term
    pub voted : n.voted_for ≡ some candidate

  -- At some time in the run it was.
  abbrev pub VotedIn : String → ℕ → List (Event C) → RaftNode C → Type 0
  VotedIn c t [] n = Votes c t n
  VotedIn c t (e ∷ es) n = Votes c t n ⊎ VotedIn c t es (step e n)

  -- The two ways to vote: for a candidate that asks, and for oneself.
  pub granted-Votes :
      (now : ℕ) (req : VoteRequest) (n : RaftNode C)
      → (handle_request_vote now req n).1.vote_granted ≡ true
      → Votes req.candidate_id req.term (handle_request_vote now req n).0
  unfolding handle_request_vote
  granted-Votes now req n h = ground arith

  pub start_election-Votes :
      (now : ℕ) (n : RaftNode C) → Votes n.node_id (suc n.current_term) (start_election now n).0
  unfolding start_election
  start_election-Votes now n = record { in_term = refl; voted = refl }

  Votes-Keeps :
      (c d : String) (t : ℕ) (n m : RaftNode C) → Keeps n m → Votes c t n → Votes d t m → c ≡ d
  Votes-Keeps c d t n m k v w = ground (arith, k.kept, v.in_term, v.voted, w.in_term, w.voted)

  Votes-VotedIn :
      (c d : String) (t : ℕ) (es : List (Event C)) (n m : RaftNode C)
      → Keeps n m
      → Votes c t n
      → VotedIn d t es m
      → c ≡ d
  Votes-VotedIn c d t [] n m k v w = Votes-Keeps c d t n m k v w
  Votes-VotedIn c d t (e ∷ es) n m k v (inl w) = Votes-Keeps c d t n m k v w
  Votes-VotedIn c d t (e ∷ es) n m k v (inr w) =
      Votes-VotedIn c d t es n (step e m) (Keeps-trans k (step-Keeps e m)) v w

  voted_once :
      (c d : String) (t : ℕ) (es : List (Event C)) (n : RaftNode C)
      → VotedIn c t es n
      → VotedIn d t es n
      → c ≡ d
  voted_once c d t [] n v w = ground (arith, v.voted, w.voted)
  voted_once c d t (e ∷ es) n (inl v) (inl w) = ground (arith, v.voted, w.voted)
  voted_once c d t (e ∷ es) n (inl v) (inr w) =
      Votes-VotedIn c d t es n (step e n) (step-Keeps e n) v w
  voted_once c d t (e ∷ es) n (inr v) (inl w) =
      sym (Votes-VotedIn d c t es n (step e n) (step-Keeps e n) w v)
  voted_once c d t (e ∷ es) n (inr v) (inr w) = voted_once c d t es (step e n) v w

  -- The candidate was elected in the term: a majority of the cluster voted for it, each in its history.
  pub record Elected (history : String → History C) (peers cluster : List String) (c : String)
      (t : ℕ) : Type 0 where
    pub voters : List String
    pub distinct : Distinct voters
    pub members : All (λ v. contains v cluster ≡ true) voters
    pub enough : majority peers ≤ length voters
    pub voted : All (λ v. VotedIn c t (history v).events (history v).start) voters

  -- In a cluster of a node and its peers no two candidates have such votes in one term.
  elected_once :
      (history : String → History C) (peers others cluster : List String) (c d : String) (t : ℕ)
      → length cluster ≡ length peers + 1
      → length others ≡ length peers
      → Elected history peers cluster c t
      → Elected history others cluster d t
      → c ≡ d
  unfolding majority
  elected_once history peers others cluster c d t size same p q =
      let (v, x, y) =
        majority_overlap peers cluster p.voters q.voters size p.distinct q.distinct p.members
          q.members p.enough (omega (arith, same, q.enough)) in
      voted_once c d t (history v).events (history v).start
        (All-contains (λ v. VotedIn c t (history v).events (history v).start) p.voters v p.voted x)
        (All-contains (λ v. VotedIn d t (history v).events (history v).start) q.voters v q.voted y)

  -- The node answers a request for a vote of the term and grants it to the candidate, now or later.
  abbrev pub GrantsNow : String → ℕ → Event C → RaftNode C → Type 0
  GrantsNow c t (vote_request now req) n =
      (req.candidate_id ≡ c)
      × (req.term ≡ t)
      × ((handle_request_vote now req n).1.vote_granted ≡ true)
  GrantsNow c t _ n = ⊥

  abbrev pub GrantedIn : String → ℕ → List (Event C) → RaftNode C → Type 0
  GrantedIn c t [] n = ⊥
  GrantedIn c t (e ∷ es) n = GrantsNow c t e n ⊎ GrantedIn c t es (step e n)

  -- The node is leader in the term at some time in the run.
  abbrev pub LeadsIn : ℕ → List (Event C) → RaftNode C → Type 0
  LeadsIn t [] n = (n.state ≡ leader) × (n.current_term ≡ t)
  LeadsIn t (e ∷ es) n = ((n.state ≡ leader) × (n.current_term ≡ t)) ⊎ LeadsIn t es (step e n)

  module _ (history : String → History C) (cluster : List String) where
    -- The replies that node `c` gets to its requests for votes: each that grants was sent by a node of the
    -- cluster, at some time in its history.
    abbrev pub IsAnswered : String → Event C → Type 0
    IsAnswered c (votes_arrive term now rs) =
        (v : String)
        → Granted term rs v
        → (contains v cluster ≡ true) × GrantedIn c term (history v).events (history v).start
    IsAnswered c _ = Unit {0}

    -- The nodes start as followers without a vote counted, under their names, each with the others as its peers,
    -- and get only votes that were granted.
    pub record IsCluster : Type 0 where
      pub named : (c : String) → (history c).start.node_id ≡ c
      pub follows : (c : String) → (history c).start.state ≡ follower
      pub uncounted : (c : String) → (history c).start.votes_received ≡ []
      pub sized :
          (c : String)
          → contains c cluster ≡ true
          → length cluster ≡ length (history c).start.peers + 1
      pub answered :
          (c : String) → contains c cluster ≡ true → All (IsAnswered c) (history c).events

    -- The voter is of the cluster, and voted for `c` in the term at some time.
    abbrev CastFor : String → String → ℕ → Type 0
    CastFor c v t = (contains v cluster ≡ true) × VotedIn c t (history v).events (history v).start

    Votes-now :
        (c : String) (t : ℕ) (es : List (Event C)) (n : RaftNode C) → Votes c t n → VotedIn c t es n
    Votes-now c t [] n v = v
    Votes-now c t (e ∷ es) n v = inl v

    GrantsNow-Votes :
        (c : String) (t : ℕ) (e : Event C) (n : RaftNode C)
        → GrantsNow c t e n
        → Votes c t (step e n)
    unfolding step
    GrantsNow-Votes c t (vote_request now req) n (a, b, g) =
        let v = granted-Votes now req n g in
        record { in_term = v.in_term ∙ b; voted = v.voted ∙ ap some a }
    GrantsNow-Votes c t (election_timer timeout now) n g = absurd g
    GrantsNow-Votes c t (votes_arrive term now rs) n g = absurd g
    GrantsNow-Votes c t (append_request now req) n g = absurd g
    GrantsNow-Votes c t (append_reply peer next_idx sent now resp) n g = absurd g
    GrantsNow-Votes c t replicated n g = absurd g
    GrantsNow-Votes c t wakes n g = absurd g
    GrantsNow-Votes c t (apply entry) n g = absurd g
    GrantsNow-Votes c t (command x) n g = absurd g
    GrantsNow-Votes c t (command_done i) n g = absurd g

    GrantedIn-VotedIn :
        (c : String) (t : ℕ) (es : List (Event C)) (n : RaftNode C)
        → GrantedIn c t es n
        → VotedIn c t es n
    GrantedIn-VotedIn c t [] n g = absurd g
    GrantedIn-VotedIn c t (e ∷ es) n (inl g) =
        inr (Votes-now c t es (step e n) (GrantsNow-Votes c t e n g))
    GrantedIn-VotedIn c t (e ∷ es) n (inr g) = inr (GrantedIn-VotedIn c t es (step e n) g)

    -- The votes that an event of `c` counts were cast for it.
    voucher :
        (c : String) (e : Event C) (n : RaftNode C)
        → n.node_id ≡ c
        → contains c cluster ≡ true
        → IsAnswered c e
        → ((t : ℕ) → Votes c t (step e n) → VotedIn c t (history c).events (history c).start)
        → IsVouched (CastFor c) e n
    unfolding step
    voucher c (election_timer timeout now) n named member a own = λ due.
        subst (λ v. CastFor c v (suc n.current_term)) (sym named)
          (
            member,
            own (suc n.current_term) (
                rw due (
                  subst (λ x. Votes x (suc n.current_term) (start_election now n).0) named
                    (start_election-Votes now n))),
          )
    voucher c (votes_arrive term now rs) n named member a own =
        λ v g. ((a v g).0, GrantedIn-VotedIn c term (history v).events (history v).start (a v g).1)
    voucher c (vote_request now req) n named member a own = tt
    voucher c (append_request now req) n named member a own = tt
    voucher c (append_reply peer next_idx sent now resp) n named member a own = tt
    voucher c replicated n named member a own = tt
    voucher c wakes n named member a own = tt
    voucher c (apply entry) n named member a own = tt
    voucher c (command x) n named member a own = tt
    voucher c (command_done i) n named member a own = tt

    leader-Elected :
        (c : String) (n : RaftNode C)
        → IsBacked (CastFor c) n
        → n.state ≡ leader
        → Elected history n.peers cluster c n.current_term
    leader-Elected c n b l =
        let cast = b.backed (λ f. absurd (cc (l, f))) in
        record {
          voters = n.votes_received;
          distinct = b.distinct;
          members = All-of_contains n.votes_received (λ v h. (cast v h).0);
          enough = b.enough l;
          voted = All-of_contains n.votes_received (λ v h. (cast v h).1);
        }

    leads-Elected :
        (c : String) (t : ℕ) (es : List (Event C)) (n : RaftNode C)
        → n.node_id ≡ c
        → contains c cluster ≡ true
        → All (IsAnswered c) es
        → ((u : ℕ) → VotedIn c u es n → VotedIn c u (history c).events (history c).start)
        → IsBacked (CastFor c) n
        → LeadsIn t es n
        → Elected history n.peers cluster c t
    leads-Elected c t [] n named member all lift b (l, e) =
        subst (Elected history n.peers cluster c) e (leader-Elected c n b l)
    leads-Elected c t (e ∷ es) n named member all lift b (inl (l, q)) =
        subst (Elected history n.peers cluster c) q (leader-Elected c n b l)
    leads-Elected c t (e ∷ es) n named member all lift b (inr later) =
        let k = step-Keeps e n in
        let vouched =
          voucher c e n named member all.0 (λ u v. lift u (inr (Votes-now c u es (step e n) v))) in
        subst (λ ps. Elected history ps cluster c t) k.same_peers
          (leads-Elected c t es (step e n) (k.same_id ∙ named) member all.1 (λ u v. lift u (inr v))
            (step-IsBacked (CastFor c) e n vouched b) later)

    leads :
        (c : String) (t : ℕ)
        → IsCluster
        → contains c cluster ≡ true
        → LeadsIn t (history c).events (history c).start
        → Elected history (history c).start.peers cluster c t
    leads c t net member l =
        leads-Elected c t (history c).events (history c).start (net.named c) member
          (net.answered c member) (λ u v. v)
          (record {
            distinct = subst Distinct (sym (net.uncounted c)) tt;
            backed = λ h. absurd (h (net.follows c));
            enough = λ w. absurd (cc (net.follows c, w));
          })
          l

    -- In a cluster, whatever events each of its nodes has seen, two nodes that are ever leaders in the same term
    -- are the same node. The nodes start as followers, each with all others as its peers, and of
    -- what they are sent only one thing is bound: a reply that grants a vote was given by a node of the
    -- cluster that granted it.
    pub one_leader :
        (c d : String) (t : ℕ)
        → IsCluster
        → contains c cluster ≡ true
        → contains d cluster ≡ true
        → LeadsIn t (history c).events (history c).start
        → LeadsIn t (history d).events (history d).start
        → c ≡ d
    one_leader c d t net mc md lc ld =
        elected_once history (history c).start.peers (history d).start.peers cluster c d t
          (net.sized c mc) (omega (arith, net.sized c mc, net.sized d md)) (leads c t net mc lc)
          (leads d t net md ld)
