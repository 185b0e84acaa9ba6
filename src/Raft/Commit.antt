-- ===== src/Raft/Commit.antt =====
-- The commit index and the committed entries of a node (src/consensus/raft.py): what is to hold, and
-- the handlers that leave the log alone.
pub mod Leader
pub mod Keeping
pub mod Runs
use distributed_sync_system.Base.{
  ℕ, zero, suc, add, ◌+◌, ◌-◌, ◌<◌, ◌≤◌, ◌≡◌, refl, sym, ap, ◌∙◌, ◌⊎◌, inl, inr, Bool, true, false,
  Option, none, some, List, [], ◌∷◌, ◌++◌, ℤ, pos, negsuc, ◌+ℤ◌, ◌-ℤ◌, ◌≤ℤ◌, ◌<ℤ◌, arith, pos_part,
  upto, upto_mono, upto-le, Bool-cases, Option-cases, if◌then◌else◌, ltb_ℤ, length, take, drop,
  min_ℤ, String, take-take, take-append_of_le, take_split, length-append, length-take, length-drop,
}
use distributed_sync_system.Raft.State.{RaftNode, LogEntry, last_log_index}
use distributed_sync_system.Raft.Vote.{VoteRequest, VoteReply, handle_request_vote}
use distributed_sync_system.Raft.Election.{start_election, finish_election, count_votes, elect}
use distributed_sync_system.Raft.Append.{
  AppendRequest, AppendReply, handle_append_entries, hear_leader, respond, reply, get_item,
}
use distributed_sync_system.Raft.Replicate.{
  handle_append_reply, advance_commit_index, find_committable, committable,
}
use distributed_sync_system.Raft.Apply.{apply_round, catch_up}
use distributed_sync_system.Raft.Client.{append_command, await_commit}
use distributed_sync_system.Raft.Merge.{merge, Agrees, take-merge}
use distributed_sync_system.Raft.Follower.{
  before, HasBefore, HasBefore-le, stored, commit_after, handle_append_entries_stale,
  handle_append_entries_matched, handle_append_entries_refused,
}

module _ {C : Type 0} where
  -- The indices are in order, and what is committed is in the log.
  pub record IsValid (n : RaftNode C) : Type 0 where
    pub low : negsuc 0 ≤ℤ n.last_applied
    pub applied : n.last_applied ≤ℤ n.commit_index
    pub high : n.commit_index <ℤ pos (length n.log)

  -- How many entries are committed.
  abbrev pub committed_count : RaftNode C → ℕ
  committed_count n = upto n.commit_index

  -- From `n` to `m` the commit index does not fall, and the entries that were committed stay.
  pub record Stable (n m : RaftNode C) : Type 0 where
    pub rises : n.commit_index ≤ℤ m.commit_index
    pub prefix : take (committed_count n) m.log ≡ take (committed_count n) n.log

  -- A handler that leaves the log and its indices alone.
  pub record Quiet (n m : RaftNode C) : Type 0 where
    pub same_log : m.log ≡ n.log
    pub same_commit : m.commit_index ≡ n.commit_index
    pub same_applied : m.last_applied ≡ n.last_applied

  pub Quiet-Stable : {n m : RaftNode C} → Quiet n m → IsValid n → IsValid m × Stable n m
  Quiet-Stable q v = ground arith

  pub Stable-trans : {n m k : RaftNode C} → Stable n m → Stable m k → Stable n k
  Stable-trans {n} {m} {k} s t = record {
    rises = omega arith;
    prefix = ground (
      arith,
      take-take (committed_count n) (committed_count m) k.log,
      take-take (committed_count n) (committed_count m) m.log,
      upto_mono n.commit_index m.commit_index s.rises,
    );
  }

  pub handle_request_vote-Quiet :
      (now : ℕ) (req : VoteRequest) (n : RaftNode C) → Quiet n (handle_request_vote now req n).0
  unfolding handle_request_vote
  handle_request_vote-Quiet now req n = ground arith

  pub count_votes-Quiet :
      (now : ℕ) (rs : List (String × Option VoteReply)) (n : RaftNode C)
      → Quiet n (count_votes now rs n).0
  unfolding count_votes
  count_votes-Quiet now [] n = ground arith
  count_votes-Quiet now ((peer, none) ∷ rs) n = count_votes-Quiet now rs n
  count_votes-Quiet now ((peer, some r) ∷ rs) n = ground (
    arith,
    count_votes-Quiet now rs n,
    count_votes-Quiet now rs (record n { votes_received = add peer n.votes_received }),
  )

  pub finish_election-Quiet :
      (term now : ℕ) (rs : List (String × Option VoteReply)) (n : RaftNode C)
      → Quiet n (finish_election term now rs n)
  unfolding finish_election elect
  finish_election-Quiet term now rs n = ground (arith, count_votes-Quiet now rs n)

  pub start_election-Quiet : (now : ℕ) (n : RaftNode C) → Quiet n (start_election now n).0
  unfolding start_election
  start_election-Quiet now n = ground arith

  pub handle_append_reply-Quiet :
      (peer : String) (next_idx : ℤ) (sent now : ℕ) (resp : Option AppendReply) (n : RaftNode C)
      → Quiet n (handle_append_reply peer next_idx sent now resp n)
  unfolding handle_append_reply
  handle_append_reply-Quiet peer next_idx sent now none n = ground arith
  handle_append_reply-Quiet peer next_idx sent now (some resp) n = ground arith

  pub await_commit-Quiet : (i : ℕ) (n : RaftNode C) → Quiet n (await_commit i n).0
  unfolding await_commit
  await_commit-Quiet i n = ground arith
