-- ===== src/Raft/Replicate.antt =====
-- The leader's side of replication in src/consensus/raft.py: `_replicate_to_peer`, which waits for
-- the reply between `append_request` and `handle_append_reply`, and `_advance_commit_index`.
use distributed_sync_system.Base.{
  ℕ, zero, suc, ◌+◌, ◌-◌, Bool, true, false, Option, none, some, List, [], ◌∷◌, String, ℤ, pos,
  negsuc, ◌+ℤ◌, ◌-ℤ◌, ltb_ℤ, leb_ℤ, max_ℤ, ltb, leb, ◌==◌, if◌then◌else◌, length, get_elem?, drop,
  lookup_or, insert, Dict,
}
use distributed_sync_system.Metrics.{count_up}
use distributed_sync_system.Raft.State.{
  RaftNode, LogEntry, Future, waiting, committed, step_down, majority,
}
use distributed_sync_system.Raft.Election.{is_leader}
use distributed_sync_system.Raft.Append.{AppendRequest, AppendReply}

module _ {C : Type 0} where
  -- `self.log[prev_idx].term if prev_idx >= 0 and self.log else 0`; `none` is an IndexError.
  unfoldable pub prev_term : List (LogEntry C) → ℤ → Option ℕ
  prev_term log (negsuc k) = some 0
  prev_term [] (pos p) = some 0
  prev_term (e ∷ log) (pos p) = elim (get_elem? (e ∷ log) p) [ none ↦ none | some f ↦ some f.term ]

  -- `self.log[next_idx:]`
  unfoldable pub entries_from : List (LogEntry C) → ℤ → List (LogEntry C)
  entries_from log (pos i) = drop i log
  entries_from log (negsuc k) = drop (length log - suc k) log

  unfoldable pub next_index_of : String → RaftNode C → ℤ
  next_index_of peer n = lookup_or peer (pos (length n.log)) n.next_index

  unfoldable pub append_request : String → RaftNode C → Option (AppendRequest C)
  unfolding prev_term entries_from next_index_of
  append_request peer n =
      let next_idx = next_index_of peer n in
      let prev_idx = next_idx -ℤ pos 1 in
      elim (prev_term n.log prev_idx) [
        | none ↦ none
        | some t ↦ some (record {
          term = n.current_term;
          leader_id = n.node_id;
          prev_log_index = prev_idx;
          prev_log_term = t;
          entries = entries_from n.log next_idx;
          leader_commit = n.commit_index;
        })
      ]

  -- The reply to a request that was sent at `next_idx` with `sent` entries.
  unfoldable pub handle_append_reply :
      String → ℤ → ℕ → ℕ → Option AppendReply → RaftNode C → RaftNode C
  unfolding step_down
  handle_append_reply peer next_idx sent now none n = n
  handle_append_reply peer next_idx sent now (some resp) n =
      let prev_idx = next_idx -ℤ pos 1 in
      let new_match = prev_idx +ℤ pos sent in
      if ltb n.current_term resp.term
      then step_down resp.term now n
      else if is_leader n.state
      then (if resp.success
          then record n {
            match_index =
                insert peer (max_ℤ (lookup_or peer (negsuc 0) n.match_index) new_match)
                  n.match_index;
            next_index = insert peer (new_match +ℤ pos 1) n.next_index;
          }
          else record n {
            next_index = insert peer (max_ℤ (pos 0) (next_idx -ℤ pos 1)) n.next_index;
          })
      else n

-- `sum(1 for m in self.match_index.values() if m >= n)`
unfoldable pub matching : ℤ → Dict ℤ → ℕ
matching i [] = 0
matching i ((p, m) ∷ d) = (if leb_ℤ i m then 1 else 0) + matching i d

-- `if n in self._pending and not self._pending[n].done()`: set the result.
resolve_future : ℕ → Future → Future
resolve_future n waiting = committed n
resolve_future n f = f

unfoldable pub resolve : ℕ → List (ℕ × Future) → List (ℕ × Future)
unfolding resolve_future
resolve n [] = []
resolve n ((i, f) ∷ ps) = if i == n then (i, resolve_future n f) ∷ ps else (i, f) ∷ resolve n ps

module _ {C : Type 0} where
  unfoldable pub acks : ℤ → RaftNode C → ℕ
  acks i n = 1 + matching i n.match_index

  -- Can the entry at `i` be committed: is it of this term, and on a majority?
  unfoldable pub committable : ℕ → RaftNode C → Bool
  committable i n = elim (get_elem? n.log i) [
    | none ↦ false
    | some e ↦ if e.term == n.current_term then leb (majority n.peers) (acks (pos i) n) else false
  ]

  -- The loop, with `i` entries at and below its index: it stops at the commit index (which is never
  -- below -1) or at the first entry that can be committed.
  unfoldable pub find_committable : ℕ → RaftNode C → Option ℕ
  unfolding committable
  find_committable zero n = none
  find_committable (suc i) n =
      let below = find_committable i n in
      if ltb_ℤ n.commit_index (pos i) then (if committable i n then some i else below) else none

  unfoldable pub advance_commit_index : RaftNode C → RaftNode C
  advance_commit_index n =
      if is_leader n.state
      then elim (find_committable (length n.log) n) [
        | none ↦ n
        | some i ↦ record n {
          commit_index = pos i;
          metrics = count_up "raft_commits_total" 1 n.metrics;
          apply_event = true;
          pending = resolve i n.pending;
        }
      ]
      else n
