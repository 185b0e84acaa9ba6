-- ===== src/Raft/Matching/Handler.antt =====
-- Log Matching over a request that a leader builds and a follower handles, at whatever later time
-- (src/consensus/raft.py).
use distributed_sync_system.Base.{
  ℕ, zero, suc, ◌≤◌, ◌≡◌, refl, sym, ap, ap₂, subst, ◌∙◌, ◌⊎◌, inl, inr, some, List, [], ◌∷◌, ◌++◌,
  String, pos, arith, length, take, drop, get_elem?, take-append-drop, dec_lt, ◌≢◌, Outcome,
  take_of_length-le, returned, ℕ_discrete, Option-cases, get_elem?-eq-none, true, false,
}
use distributed_sync_system.Raft.State.{RaftNode, LogEntry}
use distributed_sync_system.Raft.Append.{AppendRequest, AppendReply, handle_append_entries}
use distributed_sync_system.Raft.Replicate.{append_request, next_index_of, prev_term}
use distributed_sync_system.Raft.Merge.{merge}
use distributed_sync_system.Raft.Follower.{
  before, HasBefore, handle_append_entries_stale, handle_append_entries_matched,
  handle_append_entries_refused,
}
use distributed_sync_system.Raft.Replicated.{append_request_lem, before-pos}
use distributed_sync_system.Raft.Matching.{LogsMatch, Forked-LogsMatch, LogsMatch-Forked}
use distributed_sync_system.Raft.Matching.Merging.{
  take-merge_new, Forked-merge, Forked-take, append-merge,
}

module _ {C : Type 0} where
  HasBefore_dec : (k t : ℕ) (log : List (LogEntry C)) → Dec (HasBefore k t log)
  HasBefore_dec zero t log = yes tt
  HasBefore_dec (suc p) t log = elim (Option-cases (get_elem? log p)) [
    | inl e ↦ no (λ h. absurd (cc (e, h.1)))
    | inr (x, e) ↦ elim (ℕ_discrete x.term t) [
      | yes q ↦ yes (x, e, q)
      | no q ↦ no (λ h. q (cc (e, h.1, h.2)))
    ]
  ]

  prev_term_at :
      (p : ℕ) (x y : LogEntry C) (log : List (LogEntry C))
      → get_elem? (x ∷ log) p ≡ some y
      → prev_term (x ∷ log) (pos p) ≡ some y.term
  unfolding prev_term
  prev_term_at p x y log n = rw (n, prev_term) refl

  prev_term-HasBefore :
      (p t : ℕ) (log : List (LogEntry C))
      → suc p ≤ length log
      → prev_term log (pos p) ≡ some t
      → HasBefore (suc p) t log
  prev_term-HasBefore p t [] h e = absurd (omega arith)
  prev_term-HasBefore p t (x ∷ log) h e = elim (Option-cases (get_elem? (x ∷ log) p)) [
    | inl n ↦ absurd (omega (arith, get_elem?-eq-none (x ∷ log) p n))
    | inr (y, n) ↦ (y, n, cc (prev_term_at p x y log n, e))
  ]

  append_request-prev_term :
      (peer : String) (l : RaftNode C) (p : ℕ) (req : AppendRequest C)
      → next_index_of peer l ≡ pos (suc p)
      → append_request peer l ≡ some req
      → prev_term l.log (pos p) ≡ some req.prev_log_term
  unfolding append_request
  append_request-prev_term peer l p req n q = ground (arith, before-pos (suc p))

  append_request-HasBefore :
      (peer : String) (l : RaftNode C) (k : ℕ) (req : AppendRequest C)
      → next_index_of peer l ≡ pos k
      → k ≤ length l.log
      → append_request peer l ≡ some req
      → HasBefore k req.prev_log_term l.log
  append_request-HasBefore peer l zero req n h q = tt
  append_request-HasBefore peer l (suc p) req n h q =
      prev_term-HasBefore p req.prev_log_term l.log h (append_request-prev_term peer l p req n q)

  -- Logs that match and hold the same entry before the `k`-th have the first `k` in common.
  same_before :
      (k t : ℕ) (a b : List (LogEntry C))
      → LogsMatch a b
      → HasBefore k t a
      → HasBefore k t b
      → take k a ≡ take k b
  same_before zero t a b m h g = refl
  same_before (suc p) t a b m h g = m p h.0 g.0 h.1 g.1 (h.2 ∙ sym g.2)

  stored-merge :
      (k : ℕ) (a b : List (LogEntry C))
      → take k a ≡ take k b
      → take k a ++ merge (drop k a) (drop k b) ≡ merge a b
  stored-merge k a b e =
      append-merge (take k a) (drop k a) (drop k b)
      ∙ ap₂ merge (take-append-drop k a) (ap (λ pre. pre ++ drop k b) e ∙ take-append-drop k b)

  abbrev pub accepted : AppendRequest C → Outcome AppendReply
  accepted req = returned (record { term = req.term; success = true })

  refuses :
      (req : AppendRequest C) (t : ℕ) (o : Outcome AppendReply)
      → o ≡ returned (record { term = t; success = false })
      → o ≢ accepted req
  refuses req t o e s = absurd (cc (e, s))

  cut_off :
      (k now : ℕ) (req : AppendRequest C) (f : RaftNode C)
      → f.current_term ≤ req.term
      → req.prev_log_index ≡ before k
      → ¬ HasBefore k req.prev_log_term f.log
      → let r = handle_append_entries now req f in
        (r.1 ≢ accepted req) × ((p : ℕ) × (r.0.log ≡ take p f.log))
  cut_off zero now req f h e b = absurd (b tt)
  cut_off (suc p) now req f h e b =
      let done = handle_append_entries_refused p now req f h e b in
      (refuses req req.term (handle_append_entries now req f).1 done.0, (p, done.1))

  -- What the handler leaves, in each case: the log as it was, its start, or the merge with the leader's.
  log_after :
      (peer : String) (l f : RaftNode C) (k now : ℕ) (req : AppendRequest C)
      → next_index_of peer l ≡ pos k
      → k ≤ length l.log
      → append_request peer l ≡ some req
      → LogsMatch f.log l.log
      → let r = handle_append_entries now req f in
        (((r.1 ≡ accepted req) × (r.0.log ≡ merge f.log l.log))
          ⊎ ((r.1 ≢ accepted req) × ((p : ℕ) × (r.0.log ≡ take p f.log))))
  log_after peer l f k now req n h q m =
      let built = append_request_lem peer l k req n q in
      let leads = append_request-HasBefore peer l k req n h q in
      elim (dec_lt req.term f.current_term) [
        | yes old ↦
            let stale = handle_append_entries_stale now req f old in
            inr (
              refuses req f.current_term (handle_append_entries now req f).1 (ap (λ r. r.1) stale),
              (
                length f.log,
                ap (λ r. r.0.log) stale
                    ∙ sym (take_of_length-le (length f.log) f.log (omega arith)),
              ),
            )
        | no new ↦ elim (HasBefore_dec k req.prev_log_term f.log) [
          | yes b ↦
              let done = handle_append_entries_matched k now req f (omega arith) built.1 b in
              inl (
                done.0,
                done.1
                    ∙ ap (λ es. take k f.log ++ merge (drop k f.log) es) built.2
                    ∙ stored-merge k f.log l.log
                        (same_before k req.prev_log_term f.log l.log m b leads),
              )
          | no b ↦ inr (cut_off k now req f (omega arith) built.1 b)
        ]
      ]

  -- Take a request that a leader has built for a peer, and a follower whose log matches the leader's log of that
  -- time when it handles the request, whatever happened between. If the follower accepts, its log starts
  -- with the whole log of the leader, commands included. Accepted or not, a third log that matches the
  -- leader's and the follower's matches what the follower's log becomes.
  pub handle_append_entries-LogsMatch :
      (peer : String) (l f : RaftNode C) (k now : ℕ) (req : AppendRequest C) (g : List (LogEntry C))
      → next_index_of peer l ≡ pos k
      → k ≤ length l.log
      → append_request peer l ≡ some req
      → LogsMatch f.log l.log
      → LogsMatch g l.log
      → LogsMatch g f.log
      → let r = handle_append_entries now req f in
        (((r.1 ≡ accepted req) × (take (length l.log) r.0.log ≡ l.log)) ⊎ (r.1 ≢ accepted req))
        × LogsMatch g r.0.log
  handle_append_entries-LogsMatch peer l f k now req g n h q m x y =
      let fork = LogsMatch-Forked f.log l.log m in
      elim (log_after peer l f k now req n h q m) [
        | inl (a, e) ↦ (
          inl (a, ap (take (length l.log)) e ∙ take-merge_new f.log l.log fork),
          subst (LogsMatch g) (sym e) (
              Forked-LogsMatch g (merge f.log l.log) (
                Forked-merge g f.log l.log fork (LogsMatch-Forked g f.log y)
                  (LogsMatch-Forked g l.log x))),
        )
        | inr (r, (p, e)) ↦ (
          inr r,
          subst (LogsMatch g) (sym e) (
              Forked-LogsMatch g (take p f.log)
                (Forked-take g f.log p (LogsMatch-Forked g f.log y))),
        )
      ]
