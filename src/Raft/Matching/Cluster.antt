-- ===== src/Raft/Matching/Cluster.antt =====
-- A cluster of nodes of src/consensus/raft.py and the requests between them, which arrive late, more than once,
-- in any order, or never; and the Log Matching of all its logs.
use distributed_sync_system.Base.{
  ℕ, ◌≤◌, ◌≡◌, ◌≢◌, refl, sym, subst, some, List, ◌∷◌, String, pos, length, get_elem?, ite, str_dec,
}
use distributed_sync_system.Raft.State.{RaftNode, LogEntry}
use distributed_sync_system.Raft.Append.{AppendRequest}
use distributed_sync_system.Raft.Replicate.{append_request as build_request, next_index_of}
use distributed_sync_system.Raft.Steps.{
  Event, election_timer, votes_arrive, vote_request, append_request, append_reply, replicated,
  wakes, apply, command, command_done, step,
}
use distributed_sync_system.Raft.Matching.{LogsMatch}
use distributed_sync_system.Raft.Matching.Events.{Sound, step-LogsMatch}

module _ {C : Type 0} where
  -- A request that a node has built, with the node of that time; it starts within its log.
  pub record Sent (peer : String) (l : RaftNode C) (req : AppendRequest C) : Type 0 where
    pub from : ℕ
    pub at : next_index_of peer l ≡ pos from
    pub within : from ≤ length l.log
    pub built : build_request peer l ≡ some req

module _ (C : Type 0) where
  pub record InFlight : Type 0 where
    pub peer : String
    pub sender : RaftNode C
    pub message : AppendRequest C
    pub is_sent : Sent peer sender message

  pub record Cluster : Type 0 where
    pub node : String → RaftNode C
    pub sent : List (InFlight)

module _ {C : Type 0} where
  abbrev pub update : String → RaftNode C → (String → RaftNode C) → String → RaftNode C
  update v n node w = ite (str_dec w v) n (node w)

  -- Nobody has an entry of the term at the index.
  pub record IsFresh (i t : ℕ) (c : Cluster C) : Type 0 where
    pub in_nodes : (w : String) (y : LogEntry C) → get_elem? (c.node w).log i ≡ some y → y.term ≢ t
    pub in_sent :
        (k : ℕ) (r : InFlight C) (y : LogEntry C)
        → get_elem? c.sent k ≡ some r
        → get_elem? r.sender.log i ≡ some y
        → y.term ≢ t

  -- What can happen at node `v`: a request that arrives was sent, and a command that arrives does so in a term of
  -- which nobody has an entry at its place.
  abbrev pub CanHappen : String → Event C → Cluster C → Type 0
  CanHappen v (append_request now req) c =
      (k : ℕ) × (r : InFlight C) × (get_elem? c.sent k ≡ some r) × (r.message ≡ req)
  CanHappen v (command x) c = IsFresh (length (c.node v).log) (c.node v).current_term c
  CanHappen v _ c = Unit {0}

  pub data Step : Cluster C → Cluster C → Type 0 where
    sends :
        (c : Cluster C) (v peer : String) (req : AppendRequest C) (s : Sent peer (c.node v) req)
        → Step c (record c {
          sent = record { peer = peer; sender = c.node v; message = req; is_sent = s } ∷ c.sent;
        })
    acts :
        (c : Cluster C) (v : String) (e : Event C)
        → CanHappen v e c
        → Step c (record c { node = update v (step e (c.node v)) c.node })

  pub data Run : Cluster C → Cluster C → Type 0 where
    stays : (c : Cluster C) → Run c c
    goes : (c d e : Cluster C) → Step c d → Run d e → Run c e

  -- All logs match, those of the nodes and those that requests were built from.
  pub record AllMatch (c : Cluster C) : Type 0 where
    pub nodes : (v w : String) → LogsMatch (c.node v).log (c.node w).log
    pub to_sent :
        (k : ℕ) (r : InFlight C) (v : String)
        → get_elem? c.sent k ≡ some r
        → LogsMatch (c.node v).log r.sender.log
    pub among_sent :
        (j k : ℕ) (q r : InFlight C)
        → get_elem? c.sent j ≡ some q
        → get_elem? c.sent k ≡ some r
        → LogsMatch q.sender.log r.sender.log

  pub LogsMatch-sym : (a b : List (LogEntry C)) → LogsMatch a b → LogsMatch b a
  LogsMatch-sym a b m i x y p q e = sym (m i y x q p (sym e))

  pub LogsMatch-refl : (a : List (LogEntry C)) → LogsMatch a a
  LogsMatch-refl a i x y p q e = refl

  -- A log of the cluster: it matches what was sent, and a fresh place is fresh in it.
  abbrev IsLogOf : Cluster C → List (LogEntry C) → Type 0
  IsLogOf c g =
      ((k : ℕ) (r : InFlight C) → get_elem? c.sent k ≡ some r → LogsMatch g r.sender.log)
      × ((i t : ℕ) (y : LogEntry C) → IsFresh i t c → get_elem? g i ≡ some y → y.term ≢ t)

  node-IsLogOf : (c : Cluster C) (w : String) → AllMatch c → IsLogOf c (c.node w).log
  node-IsLogOf c w m = ((λ k r at. m.to_sent k r w at), λ i t y f. f.in_nodes w y)

  sent-IsLogOf :
      (c : Cluster C) (j : ℕ) (q : InFlight C)
      → get_elem? c.sent j ≡ some q
      → AllMatch c
      → IsLogOf c q.sender.log
  sent-IsLogOf c j q at m = ((λ k r. m.among_sent j k q r at), λ i t y f. f.in_sent j q y at)

  CanHappen-Sound :
      (v : String) (e : Event C) (c : Cluster C) (g : List (LogEntry C))
      → CanHappen v e c
      → AllMatch c
      → IsLogOf c g
      → Sound e (c.node v) g
  CanHappen-Sound v (append_request now req) c g (k, r, at, same) m (sent, _) = (
    r.peer,
    r.sender,
    r.is_sent.from,
    r.is_sent.at,
    r.is_sent.within,
    subst (λ q. build_request r.peer r.sender ≡ some q) same r.is_sent.built,
    m.to_sent k r v at,
    sent k r at,
  )
  CanHappen-Sound v (command x) c g f m (_, fresh) =
      λ y. fresh (length (c.node v).log) (c.node v).current_term y f
  CanHappen-Sound v (election_timer timeout now) c g h m l = tt
  CanHappen-Sound v (votes_arrive term now results) c g h m l = tt
  CanHappen-Sound v (vote_request now req) c g h m l = tt
  CanHappen-Sound v (append_reply peer next_idx sent now resp) c g h m l = tt
  CanHappen-Sound v replicated c g h m l = tt
  CanHappen-Sound v wakes c g h m l = tt
  CanHappen-Sound v (apply entry) c g h m l = tt
  CanHappen-Sound v (command_done i) c g h m l = tt

  -- A log of the cluster still matches the log of the node that had the event.
  acts-LogsMatch :
      (v : String) (e : Event C) (c : Cluster C) (g : List (LogEntry C))
      → CanHappen v e c
      → AllMatch c
      → IsLogOf c g
      → LogsMatch g (c.node v).log
      → LogsMatch g (step e (c.node v)).log
  acts-LogsMatch v e c g h m l = step-LogsMatch e (c.node v) g (CanHappen-Sound v e c g h m l)

  -- What holds of the new log and of the others holds of all after the update.
  update-all :
      (P : List (LogEntry C) → Type 0) (v w : String) (n : RaftNode C) (node : String → RaftNode C)
      → P n.log
      → P (node w).log
      → P (update v n node w).log
  update-all P v w n node p q = elim (str_dec w v) as (λ d. P (ite d n (node w)).log) [
    | yes _ ↦ p
    | no _ ↦ q
  ]

  pub acts-AllMatch :
      (v : String) (e : Event C) (c : Cluster C)
      → CanHappen v e c
      → AllMatch c
      → AllMatch (record c { node = update v (step e (c.node v)) c.node })
  acts-AllMatch v e c h m =
      let n = step e (c.node v) in
      let new : (w : String) → LogsMatch (c.node w).log n.log =
        λ w. acts-LogsMatch v e c (c.node w).log h m (node-IsLogOf c w m) (m.nodes w v) in
      record {
        nodes = λ x w.
            update-all (λ l. LogsMatch l (update v n c.node w).log) v x n c.node
              (update-all (LogsMatch n.log) v w n c.node (LogsMatch-refl n.log)
                (LogsMatch-sym (c.node w).log n.log (new w)))
              (update-all (LogsMatch (c.node x).log) v w n c.node (new x) (m.nodes x w));
        to_sent = λ k r w at.
            update-all (λ l. LogsMatch l r.sender.log) v w n c.node
              (LogsMatch-sym r.sender.log n.log (
                acts-LogsMatch v e c r.sender.log h m (sent-IsLogOf c k r at m)
                  (LogsMatch-sym (c.node v).log r.sender.log (m.to_sent k r v at))))
              (m.to_sent k r w at);
        among_sent = m.among_sent;
      }
