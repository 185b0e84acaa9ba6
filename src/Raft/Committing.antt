-- ===== src/Raft/Committing.antt =====
-- What `_advance_commit_index` (src/consensus/raft.py) commits, and whom it tells.
use distributed_sync_system.Base.{
  if◌then◌else◌, ◌==◌, Option, ℕ, zero, suc, ◌<◌, ◌≤◌, ◌≡◌, Bool-cases, ap, ◌≢◌, ◌⊎◌, inl, inr,
  true, some, List, [], ◌∷◌, pos, ◌<ℤ◌, arith, Option-cases, length, get_elem?, lt_of_get_elem?,
}
use distributed_sync_system.Raft.State.{
  RaftNode, LogEntry, Future, waiting, cancelled, committed, leader, majority,
}
use distributed_sync_system.Raft.Replicate.{
  advance_commit_index, find_committable, committable, acks, resolve,
}
use distributed_sync_system.Raft.Client.{pending_at}
use distributed_sync_system.Raft.Commit.Leader.{find_committable-some}

-- A client's future when the entry that it waits for is the new commit index.
abbrev pub told : ℕ → Option Future → Option Future
told i (some waiting) = some (committed i)
told i f = f

pending_at-resolve :
    (i j : ℕ) (ps : List (ℕ × Future))
    → pending_at j (resolve i ps) ≡ (if j == i then told i (pending_at j ps) else pending_at j ps)
unfolding pending_at resolve
pending_at-resolve i j [] = ground arith
pending_at-resolve i j ((k, waiting) ∷ ps) = ground (arith, pending_at-resolve i j ps)
pending_at-resolve i j ((k, cancelled) ∷ ps) = ground (arith, pending_at-resolve i j ps)
pending_at-resolve i j ((k, committed c) ∷ ps) = ground (arith, pending_at-resolve i j ps)

module _ {C : Type 0} where
  -- The entry at `i` is of the node's term, and the node and those of its peers that are known to
  -- hold it are a majority.
  abbrev pub CanCommit : ℕ → RaftNode C → Type 0
  CanCommit i n =
      (e : LogEntry C) × (get_elem? n.log i ≡ some e)
      × (e.term ≡ n.current_term)
      × (majority n.peers ≤ acks (pos i) n)

  CanCommit-of-committable : (i : ℕ) (n : RaftNode C) → committable i n ≡ true → CanCommit i n
  unfolding committable
  CanCommit-of-committable i n h = elim (Option-cases (get_elem? n.log i)) [
    | inl q ↦ absurd (ground arith)
    | inr (e, q) ↦ (e, q, ground arith, ground arith)
  ]

  committable_of-CanCommit : (i : ℕ) (n : RaftNode C) → CanCommit i n → committable i n ≡ true
  unfolding committable
  committable_of-CanCommit i n (e, q, t, m) = ground arith

  find_committable-last :
      (i : ℕ) (n : RaftNode C) (j : ℕ)
      → j < i
      → n.commit_index <ℤ pos j
      → committable j n ≡ true
      → (k : ℕ) × (find_committable i n ≡ some k) × (j ≤ k)
  unfolding find_committable
  find_committable-last zero n j h l q = absurd (omega arith)
  find_committable-last (suc i) n j h l q = elim (Bool-cases (committable i n)) [
    | inl here ↦ (i, ground arith, omega arith)
    | inr gone ↦
        let other : j ≢ i = λ e. cc (ap (λ (k : ℕ). committable k n) e) in
        let (k, found, le) = find_committable-last i n j (omega arith) l q in (k, ground arith, le)
  ]

  -- On a leader the commit index goes to the last entry above it that is of the leader's term and on
  -- a majority, if there is one; otherwise nothing changes.
  pub advance_commit_index_lem :
      (n : RaftNode C)
      → n.state ≡ leader
      → let m = advance_commit_index n in
        ((i : ℕ) × (m.commit_index ≡ pos i)
          × (n.commit_index <ℤ pos i)
          × CanCommit i n
          × ((j : ℕ) → i < j → ¬ CanCommit j n))
        ⊎ (m ≡ n) × ((j : ℕ) → n.commit_index <ℤ pos j → ¬ CanCommit j n)
  unfolding advance_commit_index
  advance_commit_index_lem n h = elim (Option-cases (find_committable (length n.log) n)) [
    | inl e ↦ inr (
      ground arith,
      λ j l (x, q, t, a).
          let last =
            find_committable-last (length n.log) n j (lt_of_get_elem? n.log j x q) l
              (committable_of-CanCommit j n (x, q, t, a)) in
          absurd (ground (arith, last.1)),
    )
    | inr (i, e) ↦
        let found = find_committable-some (length n.log) n i e in
        inl (
          i,
          ground arith,
          found.1,
          CanCommit-of-committable i n found.2,
          λ j l (x, q, t, a).
              let last =
                find_committable-last (length n.log) n j (lt_of_get_elem? n.log j x q) (omega arith)
                  (committable_of-CanCommit j n (x, q, t, a)) in
              absurd (ground (arith, last.1, last.2)),
        )
  ]

  -- When the commit index goes to `i`, the client that waits for entry `i` gets its answer, and no
  -- other does: one that waits for an entry below `i` that is committed with it still waits.
  pub advance_commit_index_tells_one :
      (i j : ℕ) (n : RaftNode C)
      → n.commit_index <ℤ pos i
      → (advance_commit_index n).commit_index ≡ pos i
      → pending_at j (advance_commit_index n).pending
        ≡ (if j == i then told i (pending_at j n.pending) else pending_at j n.pending)
  unfolding advance_commit_index
  advance_commit_index_tells_one i j n h e = ground (arith, pending_at-resolve i j n.pending)
