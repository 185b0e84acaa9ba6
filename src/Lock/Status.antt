-- ===== src/Lock/Status.antt =====
-- `get_status` of src/nodes/lock_manager.py: the table of the locks.
use distributed_sync_system.Base.{ℕ, Option, List, [], ◌∷◌, String, ℤ, Dict, length}
use distributed_sync_system.Metrics.{gauge}
use distributed_sync_system.Lock.State.{LockState, LockManager}
use distributed_sync_system.Raft.Client.{Status}

pub record LockReport : Type 0 where
  pub exclusive_holder : Option String
  pub shared_holders : List String
  pub queue_depth : ℕ

pub record LockStatus : Type 0 where
  pub node : String
  pub locks : Dict LockReport
  pub active_locks : ℤ
  pub raft : Status

unfoldable pub lock_reports : Dict LockState → Dict LockReport
lock_reports [] = []
lock_reports ((lid, ls) ∷ locks) =
    (
      lid,
      record {
        exclusive_holder = ls.exclusive_holder;
        shared_holders = ls.shared_holders;
        queue_depth = length ls.waiting_queue;
      },
    )
    ∷ lock_reports locks

-- `raft` is the status of the Raft node, which has the same name. The gauge is created where it is missing.
unfoldable pub get_status : Status → LockManager → LockManager × LockStatus
unfolding gauge lock_reports
get_status raft m =
    let (metrics, active) = gauge "active_locks" "" m.metrics in
    (
      record m { metrics = metrics },
      record {
        node = raft.node_id;
        locks = lock_reports m.locks;
        active_locks = active.value;
        raft = raft;
      },
    )
