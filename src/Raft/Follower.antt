-- ===== src/Raft/Follower.antt =====
-- What `handle_append_entries` (src/consensus/raft.py) answers and stores, branch by branch.
use distributed_sync_system.Base.{
  ℕ, zero, suc, ◌<◌, ◌≤◌, ◌≡◌, refl, sym, subst, true, false, some, List, ◌++◌, subst, ℤ, pos,
  negsuc, ◌+ℤ◌, arith, if◌then◌else◌, ltb_ℤ, length, take, drop, get_elem?, returned, min_ℤ,
  lt_of_get_elem?, Option-cases, get_elem?-eq-none, take_of_length-le, get_elem?-append-take,
  take-append-take, drop-append-take, ◌∙◌, inl, inr, ◌⊎◌, ◌≢◌, subst, sym,
}
use distributed_sync_system.Raft.State.{RaftNode, LogEntry, last_log_index, candidate}
use distributed_sync_system.Raft.Append.{
  AppendRequest, handle_append_entries, hear_leader, respond, reply, check_log, matches, missing,
  conflict, cut_log,
}
use distributed_sync_system.Raft.Merge.{merge, merge_idem, append_entries-merge}

-- The index before the first `k` entries' end: `k - 1`.
abbrev pub before : ℕ → ℤ
before zero = negsuc 0
before (suc p) = pos p

before_next : (k : ℕ) → before k +ℤ pos 1 ≡ pos k
unfolding ◌+ℤ◌
before_next zero = refl
before_next (suc p) = ground arith

module _ {C : Type 0} where
  -- The follower's log holds the entry before the `k`-th, of the given term.
  abbrev pub HasBefore : ℕ → ℕ → List (LogEntry C) → Type 0
  HasBefore zero t log = Unit {0}
  HasBefore (suc p) t log = (e : LogEntry C) × (get_elem? log p ≡ some e) × (e.term ≡ t)

  pub HasBefore-le : (k t : ℕ) (log : List (LogEntry C)) → HasBefore k t log → k ≤ length log
  HasBefore-le zero t log h = omega arith
  HasBefore-le (suc p) t log (e, h, _) = lt_of_get_elem? log p e h

  check_log-matches :
      (k t : ℕ) (log : List (LogEntry C)) → HasBefore k t log → check_log (before k) t log ≡ matches
  unfolding check_log
  check_log-matches zero t log h = refl
  check_log-matches (suc p) t log (e, h, q) = ground arith

  -- A request of an old term is refused with the node's term, and changes nothing.
  pub handle_append_entries_stale :
      (now : ℕ) (req : AppendRequest C) (n : RaftNode C)
      → req.term < n.current_term
      → handle_append_entries now req n
        ≡ (n, returned (record { term = n.current_term; success = false }))
  unfolding handle_append_entries reply
  handle_append_entries_stale now req n h = ground arith

  hear_leader_lem :
      (now : ℕ) (req : AppendRequest C) (n : RaftNode C)
      → n.current_term ≤ req.term
      → let m = hear_leader now req n in
        (m.current_term ≡ req.term)
        × (m.log ≡ n.log)
        × (m.commit_index ≡ n.commit_index)
        × (m.state ≢ candidate)
        × (m.current_leader ≡ some req.leader_id)
  unfolding hear_leader
  hear_leader_lem now req n h = ground arith

  -- The log and the commit index after a request that the handler accepts.
  abbrev pub stored : ℕ → AppendRequest C → RaftNode C → List (LogEntry C)
  stored k req n = take k n.log ++ merge (drop k n.log) req.entries

  abbrev pub commit_after : ℕ → AppendRequest C → RaftNode C → ℤ
  commit_after k req n =
      if ltb_ℤ n.commit_index req.leader_commit
      then min_ℤ req.leader_commit (last_log_index (stored k req n))
      else n.commit_index

  respond_matched :
      (k : ℕ) (req : AppendRequest C) (n : RaftNode C)
      → req.prev_log_index ≡ before k
      → HasBefore k req.prev_log_term n.log
      → let r = respond req n in
        (r.1 ≡ returned (record { term = n.current_term; success = true }))
        × (r.0.log ≡ stored k req n)
        × (r.0.commit_index ≡ commit_after k req n)
        × (r.0.current_term ≡ n.current_term)
        × (r.0.state ≡ n.state)
        × (r.0.current_leader ≡ n.current_leader)
  unfolding respond
  respond_matched k req n e h = ground (
    arith,
    check_log-matches k req.prev_log_term n.log h,
    before_next k,
    append_entries-merge k req.entries n.log (HasBefore-le k req.prev_log_term n.log h),
  )

  -- A request of the node's term or a newer one whose previous entry the log holds is accepted: the
  -- log keeps its first `k` entries and merges the rest with the request's, the commit index rises
  -- to the leader's as far as the log reaches and never falls because of a smaller one, the node
  -- follows that leader in that term, and no exception ends the handler.
  pub handle_append_entries_matched :
      (k now : ℕ) (req : AppendRequest C) (n : RaftNode C)
      → n.current_term ≤ req.term
      → req.prev_log_index ≡ before k
      → HasBefore k req.prev_log_term n.log
      → let r = handle_append_entries now req n in
        (r.1 ≡ returned (record { term = req.term; success = true }))
        × (r.0.log ≡ stored k req n)
        × (r.0.commit_index ≡ commit_after k req n)
        × (r.0.current_term ≡ req.term)
        × (r.0.state ≢ candidate)
        × (r.0.current_leader ≡ some req.leader_id)
  unfolding handle_append_entries
  handle_append_entries_matched k now req n h e b =
      let heard = hear_leader_lem now req n h in
      let there = subst (HasBefore k req.prev_log_term) (sym heard.1) b in
      ground (arith, heard, respond_matched k req (hear_leader now req n) e there)

  check_log-refuses :
      (p t : ℕ) (log : List (LogEntry C))
      → ¬ HasBefore (suc p) t log
      → (check_log (pos p) t log ≡ conflict)
        ⊎ (check_log (pos p) t log ≡ missing) × (length log ≤ p)
  unfolding check_log
  check_log-refuses p t log h = elim (Option-cases (get_elem? log p)) [
    | inl e ↦ inr (rw (e, check_log), get_elem?-eq-none log p e)
    | inr (x, e) ↦ inl (ground (arith, λ (q : x.term ≡ t). h (x, e, q)))
  ]

  -- A request of the node's term or a newer one whose previous entry, at index `p`, the log does not
  -- hold in the right term is refused: the log loses what stands at `p` and behind it, which is
  -- nothing where it was too short, and the commit index stays.
  pub handle_append_entries_refused :
      (p now : ℕ) (req : AppendRequest C) (n : RaftNode C)
      → n.current_term ≤ req.term
      → req.prev_log_index ≡ pos p
      → ¬ HasBefore (suc p) req.prev_log_term n.log
      → let r = handle_append_entries now req n in
        (r.1 ≡ returned (record { term = req.term; success = false }))
        × (r.0.log ≡ take p n.log)
        × (r.0.commit_index ≡ n.commit_index)
  unfolding handle_append_entries respond cut_log reply
  handle_append_entries_refused p now req n h e b = ground (
    arith,
    hear_leader_lem now req n h,
    check_log-refuses p req.prev_log_term n.log b,
    take_of_length-le p n.log,
  )

  HasBefore-stored :
      (k t : ℕ) (log rest : List (LogEntry C))
      → HasBefore k t log
      → HasBefore k t (take k log ++ rest)
  HasBefore-stored zero t log rest h = tt
  HasBefore-stored (suc p) t log rest (e, h, q) =
      (e, get_elem?-append-take p log rest (lt_of_get_elem? log p e h) ∙ h, q)

  -- A request that was accepted once, and comes again with no event between, is accepted again and
  -- leaves the log as the first left it.
  pub handle_append_entries_retry :
      (k now later : ℕ) (req : AppendRequest C) (n : RaftNode C)
      → n.current_term ≤ req.term
      → req.prev_log_index ≡ before k
      → HasBefore k req.prev_log_term n.log
      → let m = (handle_append_entries now req n).0 in
        let r = handle_append_entries later req m in
        (r.1 ≡ returned (record { term = req.term; success = true })) × (r.0.log ≡ m.log)
  handle_append_entries_retry k now later req n h e b =
      let first = handle_append_entries_matched k now req n h e b in
      let m = (handle_append_entries now req n).0 in
      let there =
        subst (HasBefore k req.prev_log_term) (sym first.1)
          (HasBefore-stored k req.prev_log_term n.log _ b) in
      let again = handle_append_entries_matched k later req m (omega (arith, first.3)) e there in
      let size = HasBefore-le k req.prev_log_term n.log b in
      ground (
        arith,
        first.1,
        again.0,
        again.1,
        take-append-take k n.log (merge (drop k n.log) req.entries) size,
        drop-append-take k n.log (merge (drop k n.log) req.entries) size,
        merge_idem (drop k n.log) req.entries,
      )
