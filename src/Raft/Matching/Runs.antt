-- ===== src/Raft/Matching/Runs.antt =====
-- The Log Matching of a cluster of nodes of src/consensus/raft.py, whatever happens in it.
use distributed_sync_system.Base.{ℕ, zero, suc, ◌≡◌, ap, subst, some, [], ◌∷◌, String, get_elem?}
use distributed_sync_system.Raft.Append.{AppendRequest}
use distributed_sync_system.Raft.Matching.{LogsMatch}
use distributed_sync_system.Raft.Matching.Cluster.{
  Sent, InFlight, Cluster, Step, sends, acts, Run, stays, goes, AllMatch, LogsMatch-sym,
  acts-AllMatch,
}

some_inj : {A : Type 0} {a b : A} → some a ≡ some b → a ≡ b
some_inj e = cc e

module _ {C : Type 0} where
  sends-AllMatch :
      (c : Cluster C) (v peer : String) (req : AppendRequest C) (s : Sent peer (c.node v) req)
      → AllMatch c
      → AllMatch (record c {
        sent = record { peer = peer; sender = c.node v; message = req; is_sent = s } ∷ c.sent;
      })
  sends-AllMatch c v peer req s m = record { nodes = m.nodes; to_sent = to; among_sent = among }
    where
      new : InFlight C
      new = record { peer = peer; sender = c.node v; message = req; is_sent = s }

      to :
          (k : ℕ) (r : InFlight C) (w : String)
          → get_elem? (new ∷ c.sent) k ≡ some r
          → LogsMatch (c.node w).log r.sender.log
      to zero r w at =
          subst (λ q. LogsMatch (c.node w).log q.sender.log) (some_inj at) (m.nodes w v)
      to (suc k) r w at = m.to_sent k r w at

      from :
          (k : ℕ) (r : InFlight C)
          → get_elem? (new ∷ c.sent) k ≡ some r
          → LogsMatch (c.node v).log r.sender.log
      from k r at = to k r v at

      among :
          (j k : ℕ) (q r : InFlight C)
          → get_elem? (new ∷ c.sent) j ≡ some q
          → get_elem? (new ∷ c.sent) k ≡ some r
          → LogsMatch q.sender.log r.sender.log
      among zero k q r a b =
          subst (λ x. LogsMatch x.sender.log r.sender.log) (some_inj a) (from k r b)
      among (suc j) zero q r a b =
          LogsMatch-sym r.sender.log q.sender.log
            (subst (λ x. LogsMatch x.sender.log q.sender.log) (some_inj b) (from (suc j) q a))
      among (suc j) (suc k) q r a b = m.among_sent j k q r a b

  step-AllMatch : {c d : Cluster C} → Step c d → AllMatch c → AllMatch d
  step-AllMatch (sends c v peer req s) m = sends-AllMatch c v peer req s m
  step-AllMatch (acts c v e h) m = acts-AllMatch v e c h m

  run-AllMatch : {c d : Cluster C} → Run c d → AllMatch c → AllMatch d
  run-AllMatch (stays c) m = m
  run-AllMatch (goes c d e s r) m = run-AllMatch r (step-AllMatch s m)

  start-AllMatch : (c : Cluster C) → ((v : String) → (c.node v).log ≡ []) → c.sent ≡ [] → AllMatch c
  start-AllMatch c empty none = record {
    nodes = λ v w i x y p q e. absurd (cc (ap (λ l. get_elem? l i) (empty v), p));
    to_sent = λ k r v at. absurd (cc (ap (λ l. get_elem? l k) none, at));
    among_sent = λ j k q r a b. absurd (cc (ap (λ l. get_elem? l k) none, b));
  }

  -- In a cluster that starts with empty logs and nothing sent, after any elections, requests, replies and commands
  -- at its nodes, with requests that arrive late, repeatedly or out of order: where the logs of two nodes have
  -- entries of one term at one index, they are the same up to and with this index. That a command comes
  -- only where no log has an entry of its term at its place is a condition of the run: that a term has
  -- one leader is not derived here.
  pub run-LogsMatch :
      (c d : Cluster C) (v w : String)
      → ((u : String) → (c.node u).log ≡ [])
      → c.sent ≡ []
      → Run c d
      → LogsMatch (d.node v).log (d.node w).log
  run-LogsMatch c d v w empty none r = (run-AllMatch r (start-AllMatch c empty none)).nodes v w
