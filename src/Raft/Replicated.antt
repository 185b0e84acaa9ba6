-- ===== src/Raft/Replicated.antt =====
-- A round of replication in src/consensus/raft.py: the request that a leader builds for a peer, the
-- peer's handler on it, and the leader on the reply.
use distributed_sync_system.Base.{
  max_ℤ, if◌then◌else◌, ltb_ℤ, ℕ, zero, suc, ◌+◌, ◌-◌, ◌≤◌, ◌≡◌, refl, ap, ◌∙◌, true, some, map,
  String, ℤ, pos, ◌+ℤ◌, ◌-ℤ◌, ◌<ℤ◌, arith, length, take, drop, min_ℤ, returned, length-append,
  length-take, length-drop, drop-append-take, lookup_or, lookup-insert_self,
}
use distributed_sync_system.Raft.State.{RaftNode, leader, last_log_index}
use distributed_sync_system.Raft.Append.{AppendRequest, AppendReply, handle_append_entries}
use distributed_sync_system.Raft.Replicate.{
  append_request, next_index_of, entries_from, handle_append_reply,
}
use distributed_sync_system.Raft.Merge.{merge, merge-terms, length-merge}
use distributed_sync_system.Raft.Follower.{
  before, HasBefore, HasBefore-le, stored, commit_after, handle_append_entries_matched,
}

pub before-pos : (k : ℕ) → pos k -ℤ pos 1 ≡ before k
unfolding ◌-ℤ◌
before-pos zero = refl
before-pos (suc p) = ground arith

next_after : (k sent : ℕ) → pos k -ℤ pos 1 +ℤ pos sent +ℤ pos 1 ≡ pos (k + sent)
unfolding ◌-ℤ◌ ◌+ℤ◌
next_after k sent = ground arith

min_ℤ-last : (c : ℤ) (n : ℕ) → c <ℤ pos n → min_ℤ c (pos n -ℤ pos 1) ≡ c
unfolding min_ℤ ◌-ℤ◌
min_ℤ-last c n h = ground arith

module _ {C : Type 0} where
  pub append_request_lem :
      (peer : String) (l : RaftNode C) (k : ℕ) (req : AppendRequest C)
      → next_index_of peer l ≡ pos k
      → append_request peer l ≡ some req
      → (req.term ≡ l.current_term)
        × (req.prev_log_index ≡ before k)
        × (req.entries ≡ drop k l.log)
        × (req.leader_commit ≡ l.commit_index)
  unfolding append_request entries_from
  append_request_lem peer l k req n h = ground (arith, before-pos k)

  -- With the whole rest of the leader's log in the follower's, nothing but the leader's commit index
  -- bounds the one it takes over.
  commit_after_leader :
      (k : ℕ) (req : AppendRequest C) (f : RaftNode C)
      → k ≤ length f.log
      → req.leader_commit <ℤ pos (k + length req.entries)
      → commit_after k req f ≡ max_ℤ f.commit_index req.leader_commit
  unfolding last_log_index max_ℤ
  commit_after_leader k req f h b =
      let long : k + length req.entries ≤ length (stored k req f) = omega (
        arith,
        length-append (take k f.log) (merge (drop k f.log) req.entries),
        length-take k f.log,
        length-merge (drop k f.log) req.entries,
      ) in
      ap (λ (c : ℤ). if ltb_ℤ f.commit_index req.leader_commit then c else f.commit_index)
        (min_ℤ-last req.leader_commit (length (stored k req f)) (omega arith))

  next_index-accepted :
      (peer : String) (next_idx : ℤ) (sent later : ℕ) (l : RaftNode C)
      → l.state ≡ leader
      → next_index_of peer (
          handle_append_reply peer next_idx sent later
            (some (record { term = l.current_term; success = true }))
            l)
        ≡ next_idx -ℤ pos 1 +ℤ pos sent +ℤ pos 1
  unfolding next_index_of handle_append_reply lookup_or
  next_index-accepted peer next_idx sent later l s =
      ground (arith, lookup-insert_self peer (next_idx -ℤ pos 1 +ℤ pos sent +ℤ pos 1) l.next_index)

  -- A peer that accepts the request that a leader has built for it holds, from the place where the
  -- request starts, entries of the same terms as the leader up to the end of the leader's log; its
  -- commit index is then the greater of the two; and the leader, on the reply, will send it next what
  -- it appends after its log of that time.
  pub replicate_round :
      (peer : String) (l f : RaftNode C) (k now later : ℕ) (req : AppendRequest C)
      → l.state ≡ leader
      → next_index_of peer l ≡ pos k
      → k ≤ length l.log
      → l.commit_index <ℤ pos (length l.log)
      → append_request peer l ≡ some req
      → f.current_term ≤ l.current_term
      → HasBefore k req.prev_log_term f.log
      → let r = handle_append_entries now req f in
        let reply : AppendReply = record { term = l.current_term; success = true } in
        (r.1 ≡ returned reply)
        × (map (λ e. e.term) (take (length l.log - k) (drop k r.0.log))
            ≡ map (λ e. e.term) (drop k l.log))
        × (r.0.commit_index ≡ max_ℤ f.commit_index l.commit_index)
        × (next_index_of peer
              (handle_append_reply peer (pos k) (length req.entries) later (some reply) l)
            ≡ pos (length l.log))
  replicate_round peer l f k now later req s n h c q t b =
      let built = append_request_lem peer l k req n q in
      let done = handle_append_entries_matched k now req f (omega (arith, built.0)) built.1 b in
      let size = HasBefore-le k req.prev_log_term f.log b in
      let sent : length req.entries ≡ length l.log - k =
        omega (arith, ap length built.2, length-drop k l.log) in
      let terms = merge-terms (drop k f.log) req.entries in
      (
        ground (arith, done.0, built.0),
        ground (
          arith,
          done.1,
          built.2,
          sent,
          terms,
          drop-append-take k f.log (merge (drop k f.log) req.entries) size,
        ),
        done.2
            ∙ commit_after_leader k req f size (ground (arith, built.3, sent))
            ∙ ap (max_ℤ f.commit_index) built.3,
        next_index-accepted peer (pos k) (length req.entries) later l s
            ∙ next_after k (length req.entries)
            ∙ ap pos (omega arith),
      )
