-- ===== src/Raft/Apply.antt =====
-- `_apply_loop` of src/consensus/raft.py. Its variable `entry` outlives a round of the outer loop,
-- so it is an argument and a result of the round. The callback is the one that a lock manager
-- passes, and never absent.
use distributed_sync_system.Base.{
  ℕ, zero, suc, true, false, Option, none, some, pos, ◌+ℤ◌, ◌-ℤ◌, ltb_ℤ, pos_part, Outcome,
  returned, raised, index_error, unbound_local,
}
use distributed_sync_system.Raft.State.{RaftNode, LogEntry}
use distributed_sync_system.Raft.Append.{get_item}

module _ {C : Type 0} where
  -- The inner loop, for at most the given number of rounds.
  unfoldable pub catch_up :
      ℕ → RaftNode C → Option (LogEntry C) → RaftNode C × Option (LogEntry C) × Outcome (Unit {0})
  catch_up zero n entry = (n, entry, returned tt)
  catch_up (suc rounds) n entry = elim (ltb_ℤ n.last_applied n.commit_index) [
    | false ↦ (n, entry, returned tt)
    | true ↦ elim (get_item n.log (n.last_applied +ℤ pos 1)) [
      | none ↦ (record n { last_applied = n.last_applied +ℤ pos 1 }, entry, raised index_error)
      | some e ↦ catch_up rounds (record n { last_applied = n.last_applied +ℤ pos 1 }) (some e)
    ]
  ]

  -- The call of the callback after it: the entry that it gets.
  unfoldable pub call_back : Option (LogEntry C) → Outcome (Unit {0}) → Outcome (LogEntry C)
  call_back entry (raised e) = raised e
  call_back none (returned _) = raised unbound_local
  call_back (some e) (returned _) = returned e

  -- `wait` and `clear` of the event, before the lock is taken: a later `set` wakes the next round.
  unfoldable pub wake : RaftNode C → RaftNode C
  wake n = record n { apply_event = false }

  -- The rest of a round of the outer loop. The inner loop raises `last_applied` by one in each of
  -- its rounds, so it ends within their difference.
  unfoldable pub apply_round :
      RaftNode C → Option (LogEntry C) → RaftNode C × Option (LogEntry C) × Outcome (LogEntry C)
  unfolding call_back
  apply_round n entry =
      let (n', entry', ended) = catch_up (pos_part (n.commit_index -ℤ n.last_applied)) n entry in
      (n', entry', call_back entry' ended)
