-- ===== src/Raft/Elected.antt =====
-- How a candidate becomes leader in src/consensus/raft.py.
use distributed_sync_system.Base.{
  All, if◌then◌else◌, lookup, insert, lookup-insert, Dict, ℤ, pos, negsuc, ℕ, ◌<◌, ◌≤◌, ◌≡◌, refl,
  sym, subst, ◌&&◌, ◌==◌, Bool-cases, ltb, ◌≢◌, ◌⊎◌, inl, inr, Bool, true, false, Option, none,
  some, List, [], ◌∷◌, String, arith, length, contains, add, Distinct, contains-add,
}
use distributed_sync_system.Raft.State.{RaftNode, leader, follower, majority}
use distributed_sync_system.Raft.Vote.{VoteReply}
use distributed_sync_system.Raft.Election.{
  reset_peers, become_leader, is_candidate, finish_election, count_votes, elect,
}

-- A peer's reply that counts in the given term.
abbrev pub Granted : ℕ → List (String × Option VoteReply) → String → Type 0
Granted term [] v = ⊥
Granted term ((peer, none) ∷ rs) v = Granted term rs v
Granted term ((peer, some r) ∷ rs) v =
    ((v ≡ peer) × (r.vote_granted ≡ true) × (r.term ≤ term)) ⊎ Granted term rs v

pub All-of_contains :
    {P : String → Type 0} (xs : List String)
    → ((x : String) → contains x xs ≡ true → P x)
    → All P xs
unfolding contains
All-of_contains [] h = tt
All-of_contains (x ∷ xs) h = (h x (ground arith), All-of_contains xs (λ y c. h y (ground arith)))

Distinct-add : (x : String) (s : List String) → Distinct s → Distinct (add x s)
unfolding add contains
Distinct-add x [] d = (refl, tt)
Distinct-add x (y ∷ s) d = ground (arith, Distinct-add x s d.1, contains-add y x s)

module _ {C : Type 0} where
  pub count_votes_lem :
      (now : ℕ) (rs : List (String × Option VoteReply)) (n : RaftNode C) (v : String)
      → contains v (count_votes now rs n).0.votes_received ≡ true
      → (contains v n.votes_received ≡ true) ⊎ Granted n.current_term rs v
  unfolding count_votes
  count_votes_lem now [] n v h = inl h
  count_votes_lem now ((peer, none) ∷ rs) n v h = count_votes_lem now rs n v h
  count_votes_lem now ((peer, some r) ∷ rs) n v h = ground (
    arith,
    count_votes_lem now rs n v,
    count_votes_lem now rs (record n { votes_received = add peer n.votes_received }) v,
    contains-add v peer n.votes_received,
  )

  pub count_votes-Distinct :
      (now : ℕ) (rs : List (String × Option VoteReply)) (n : RaftNode C)
      → Distinct n.votes_received
      → Distinct (count_votes now rs n).0.votes_received
  unfolding count_votes
  count_votes-Distinct now [] n d = d
  count_votes-Distinct now ((peer, none) ∷ rs) n d = count_votes-Distinct now rs n d
  count_votes-Distinct now ((peer, some r) ∷ rs) n d =
      elim (Bool-cases (ltb n.current_term r.term)) [
        | inl e ↦ rw (e, count_votes) d
        | inr e ↦ elim (Bool-cases r.vote_granted) [
          | inl g ↦
              rw (e, g)
                (count_votes-Distinct now rs
                  (record n { votes_received = add peer n.votes_received })
                  (Distinct-add peer n.votes_received d))
          | inr g ↦ rw (e, g) (count_votes-Distinct now rs n d)
        ]
      ]

  -- The rest of a node that counts replies to the end.
  pub count_votes_same :
      (now : ℕ) (rs : List (String × Option VoteReply)) (n : RaftNode C)
      → let r = count_votes now rs n in
        ((r.1 ≡ false)
          × (r.0.current_term ≡ n.current_term)
          × (r.0.peers ≡ n.peers)
          × (r.0.state ≡ n.state)
          × (r.0.log ≡ n.log))
        ⊎ (r.1 ≡ true) × (n.current_term < r.0.current_term) × (r.0.state ≡ follower)
  unfolding count_votes
  count_votes_same now [] n = ground arith
  count_votes_same now ((peer, none) ∷ rs) n = count_votes_same now rs n
  count_votes_same now ((peer, some r) ∷ rs) n = ground (
    arith,
    count_votes_same now rs n,
    count_votes_same now rs (record n { votes_received = add peer n.votes_received }),
  )

  pub elect_leader :
      (n : RaftNode C) (b : Bool)
      → n.state ≢ leader
      → (elect (n, b)).state ≡ leader
      → (b ≡ false)
        × (majority n.peers ≤ length n.votes_received)
        × ((elect (n, b)).votes_received ≡ n.votes_received)
        × ((elect (n, b)).current_term ≡ n.current_term)
        × ((elect (n, b)).log ≡ n.log)
  unfolding elect
  elect_leader n true s h = absurd (s h)
  elect_leader n false s h = ground arith

  -- If the replies make a node leader, then it is still in the term that it asked for, its votes are
  -- a majority of the cluster, nobody is counted twice, and each was there before the replies or is
  -- a peer's that granted it, in no newer term; the log is untouched.
  pub finish_election_wins :
      (term now : ℕ) (rs : List (String × Option VoteReply)) (n : RaftNode C)
      → Distinct n.votes_received
      → n.state ≢ leader
      → (finish_election term now rs n).state ≡ leader
      → let m = finish_election term now rs n in
        (n.current_term ≡ term)
        × (m.current_term ≡ term)
        × (majority n.peers ≤ length m.votes_received)
        × Distinct m.votes_received
        × All (λ v. (contains v n.votes_received ≡ true) ⊎ Granted term rs v) m.votes_received
        × (m.log ≡ n.log)
  unfolding finish_election
  finish_election_wins term now rs n d s h =
      elim (Bool-cases (is_candidate n.state && n.current_term == term)) [
        | inl e ↦
            let r = count_votes now rs n in
            let same = count_votes_same now rs n in
            let t : n.current_term ≡ term = ground arith in
            let lost : r.0.state ≢ leader = λ l. ground (arith, same) in
            let won = elect_leader r.0 r.1 lost (ground arith) in
            rw (e, finish_election)
              (
                t,
                ground (arith, same, won),
                ground (arith, same, won),
                subst Distinct (sym won.2) (count_votes-Distinct now rs n d),
                subst (λ xs. All (λ v. (contains v n.votes_received ≡ true) ⊎ Granted term rs v) xs)
                    (sym won.2)
                    (All-of_contains r.0.votes_received (λ v c.
                      subst (λ u. (contains v n.votes_received ≡ true) ⊎ Granted u rs v) t
                        (count_votes_lem now rs n v c))),
                ground (arith, same, won),
              )
        | inr e ↦ absurd (s (ground arith))
      ]

lookup-reset_peers :
    (p : String) (ps : List String) (v : ℤ) (d : Dict ℤ)
    → lookup p (reset_peers ps v d) ≡ (if contains p ps then some v else lookup p d)
unfolding reset_peers contains
lookup-reset_peers p [] v d = refl
lookup-reset_peers p (q ∷ ps) v d =
    ground (arith, lookup-reset_peers p ps v (insert q v d), lookup-insert q p v d)

-- A new leader takes every peer to hold nothing, and to want the entry after its own last one.
pub become_leader_indices :
    {C : Type 0} (n : RaftNode C) (p : String)
    → contains p n.peers ≡ true
    → (lookup p (become_leader n).next_index ≡ some (pos (length n.log)))
      × (lookup p (become_leader n).match_index ≡ some (negsuc 0))
unfolding become_leader
become_leader_indices n p h = ground (
  arith,
  lookup-reset_peers p n.peers (pos (length n.log)) n.next_index,
  lookup-reset_peers p n.peers (negsuc 0) n.match_index,
)
