-- ===== src/Raft/Commit/Keeping.antt =====
-- `handle_append_entries` of src/consensus/raft.py and the committed entries.
use distributed_sync_system.Base.{
  ℕ, suc, ◌-◌, ◌<◌, ◌≤◌, ◌≡◌, ap, ◌⊎◌, inl, inr, List, ℤ, pos, negsuc, ◌-ℤ◌, ◌≤ℤ◌, ◌<ℤ◌, arith,
  upto, upto-le, if◌then◌else◌, ltb_ℤ, length, take, drop, min_ℤ, take-take, take_split,
  length-take, length-drop,
}
use distributed_sync_system.Raft.State.{RaftNode, LogEntry, last_log_index}
use distributed_sync_system.Raft.Append.{
  AppendRequest, handle_append_entries, hear_leader, respond, reply,
}
use distributed_sync_system.Raft.Merge.{merge, Agrees, take-merge}
use distributed_sync_system.Raft.Follower.{
  before, HasBefore, HasBefore-le, stored, handle_append_entries_stale,
  handle_append_entries_matched, handle_append_entries_refused,
}
use distributed_sync_system.Raft.Commit.{IsValid, Stable, Quiet-Stable, committed_count}

module _ {C : Type 0} where
  -- A request is consistent with what the node has committed: it names the place behind its `k`-th
  -- entry, and it is stale; or it is accepted and its entries have the terms of the committed ones at
  -- their places; or it is refused, at an index that is not committed.
  abbrev pub Respects : ℕ → AppendRequest C → RaftNode C → Type 0
  Respects k req n =
      (req.prev_log_index ≡ before k)
      × ((req.term < n.current_term)
          ⊎ (n.current_term ≤ req.term)
            × HasBefore k req.prev_log_term n.log
            × Agrees (committed_count n - k) (drop k n.log) req.entries
          ⊎ (n.current_term ≤ req.term)
            × (p : ℕ) × (k ≡ suc p)
            × (¬ HasBefore (suc p) req.prev_log_term n.log)
            × (n.commit_index <ℤ pos p))

  stored-prefix :
      (k : ℕ) (req : AppendRequest C) (n : RaftNode C)
      → IsValid n
      → HasBefore k req.prev_log_term n.log
      → Agrees (committed_count n - k) (drop k n.log) req.entries
      → take (committed_count n) (stored k req n) ≡ take (committed_count n) n.log
  stored-prefix k req n v b a =
      take_split (committed_count n) k n.log (merge (drop k n.log) req.entries)
        (HasBefore-le k req.prev_log_term n.log b)
        (take-merge (committed_count n - k) (drop k n.log) req.entries
          (omega (arith, length-drop k n.log, upto-le n.commit_index (length n.log) v.high)) a)

  handle_append_entries-applied :
      (now : ℕ) (req : AppendRequest C) (n : RaftNode C)
      → (handle_append_entries now req n).0.last_applied ≡ n.last_applied
  unfolding handle_append_entries hear_leader respond reply
  handle_append_entries-applied now req n = ground arith

  -- The committed entries are still in the log when it is at least as long as they are many.
  length-prefix :
      (c : ℕ) (xs ys : List (LogEntry C)) → take c ys ≡ take c xs → c ≤ length xs → c ≤ length ys
  length-prefix c xs ys e h = omega (arith, ap length e, length-take c xs, length-take c ys)

  committed-bounds :
      (c l : ℤ) (log : List (LogEntry C))
      → negsuc 0 ≤ℤ c
      → upto c ≤ length log
      → let d = if ltb_ℤ c l then min_ℤ l (last_log_index log) else c in
        (c ≤ℤ d) × (d <ℤ pos (length log))
  unfolding min_ℤ last_log_index ◌-ℤ◌
  committed-bounds c l log h k = ground arith

  pub handle_append_entries-Stable :
      (k now : ℕ) (req : AppendRequest C) (n : RaftNode C)
      → Respects k req n
      → IsValid n
      → IsValid (handle_append_entries now req n).0 × Stable n (handle_append_entries now req n).0
  handle_append_entries-Stable k now req n (e, inl old) v =
      let same = handle_append_entries_stale now req n old in
      Quiet-Stable
        (record {
          same_log = ap (λ r. r.0.log) same;
          same_commit = ap (λ r. r.0.commit_index) same;
          same_applied = ap (λ r. r.0.last_applied) same;
        })
        v
  handle_append_entries-Stable k now req n (e, inr (inl (t, b, a))) v =
      let done = handle_append_entries_matched k now req n t e b in
      let kept = stored-prefix k req n v b a in
      let long =
        length-prefix (committed_count n) n.log (stored k req n) kept
          (upto-le n.commit_index (length n.log) v.high) in
      let bounds =
        committed-bounds n.commit_index req.leader_commit (stored k req n) (omega arith) long in
      ground (arith, done.1, done.2, kept, bounds, handle_append_entries-applied now req n)
  handle_append_entries-Stable k now req n (e, inr (inr (t, p, q, b, c))) v =
      let refused = handle_append_entries_refused p now req n t (ground arith) b in
      ground (
        arith,
        refused.1,
        refused.2,
        handle_append_entries-applied now req n,
        take-take (committed_count n) p n.log,
        length-take p n.log,
      )
