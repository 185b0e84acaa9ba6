-- ===== src/Lock/Machine.antt =====
-- `_on_commit`, `_apply_acquire` and `_apply_release` of src/nodes/lock_manager.py: what a committed
-- command does.
use distributed_sync_system.Base.{
  ℕ, Bool, true, false, ◌&&◌, Option, none, some, List, [], ◌∷◌, ◌++◌, String, Dict, ite, str_dec,
  lookup, lookup_or, insert, erase, add, union, discard, if◌then◌else◌, Outcome, returned, raised,
  value_error,
}
use distributed_sync_system.Metrics.{Registry, increment_gauge, decrement_gauge}
use distributed_sync_system.Lock.State.{
  LockType, shared, exclusive, lock_type_of, LockRequest, LockState, new_lock, can_acquire_shared,
  can_acquire_exclusive, is_held_by, LockManager,
}

pub record AcquireCommand : Type 0 where
  pub request_id : String
  pub lock_id : String
  pub client_id : String
  pub lock_type : String
  pub timeout : ℕ
  pub timestamp : ℕ

pub data Command : Type 0 where
  lock_acquire : AcquireCommand → Command
  lock_release : (lock_id client_id : String) → Command
  other : Command

abbrev pub is_shared : LockType → Bool
is_shared shared = true
is_shared exclusive = false

abbrev pub is_exclusive : LockType → Bool
is_exclusive shared = false
is_exclusive exclusive = true

-- `{holder} if holder else set()`: the empty name counts as no holder.
unfoldable pub exclusive_set : Option String → List String
exclusive_set none = []
exclusive_set (some c) = ite (str_dec c "") [] (c ∷ [])

unfoldable pub holders : LockState → List String
unfolding exclusive_set
holders ls = union ls.shared_holders (exclusive_set ls.exclusive_holder)

-- Who waits, and for whom.
unfoldable pub wait : LockRequest → LockState → LockManager → LockManager
wait req ls m = record m {
  locks = insert req.lock_id (record ls { waiting_queue = ls.waiting_queue ++ req ∷ [] }) m.locks;
  client_requests = insert req.request_id req m.client_requests;
  wait_for =
      insert req.client_id (union (lookup_or req.client_id [] m.wait_for) (holders ls)) m.wait_for;
}

-- The three branches of `_apply_acquire`, on the lock's state.
unfoldable pub acquire_on : LockRequest → LockState → LockManager → LockManager
acquire_on req ls m =
    if is_shared req.lock_type && can_acquire_shared ls
    then record m {
      locks =
          insert req.lock_id (record ls { shared_holders = add req.client_id ls.shared_holders })
            m.locks;
      metrics = increment_gauge "active_locks" m.metrics;
    }
    else if is_exclusive req.lock_type && can_acquire_exclusive ls
    then record m {
      locks = insert req.lock_id (record ls { exclusive_holder = some req.client_id }) m.locks;
      metrics = increment_gauge "active_locks" m.metrics;
    }
    else wait req ls m

unfoldable pub request_of : AcquireCommand → LockType → LockRequest
request_of cmd lock_type = record {
  request_id = cmd.request_id;
  lock_id = cmd.lock_id;
  client_id = cmd.client_id;
  lock_type = lock_type;
  timestamp = cmd.timestamp;
  timeout = cmd.timeout;
}

unfoldable pub apply_acquire : AcquireCommand → LockManager → LockManager × Outcome (Unit {0})
apply_acquire cmd m = elim (lock_type_of cmd.lock_type) [
  | none ↦ (m, raised value_error)
  | some lock_type ↦ (
    acquire_on (request_of cmd lock_type) (lookup_or cmd.lock_id (new_lock cmd.lock_id) m.locks) m,
    returned tt,
  )
]

-- The loop over the queue: the lock after it, the requests in `still`, and the metrics. It ends with
-- the first exclusive request that it grants.
unfoldable pub grant_waiting :
    List LockRequest → LockState → Registry → LockState × List LockRequest × Registry
grant_waiting [] ls metrics = (ls, [], metrics)
grant_waiting (req ∷ queue) ls metrics =
    let next = record ls { shared_holders = add req.client_id ls.shared_holders } in
    let granted = grant_waiting queue next (increment_gauge "active_locks" metrics) in
    let skipped = grant_waiting queue ls metrics in
    if is_exclusive req.lock_type && can_acquire_exclusive ls
    then (
      record ls { exclusive_holder = some req.client_id },
      [],
      increment_gauge "active_locks" metrics,
    )
    else if is_shared req.lock_type && can_acquire_shared ls
    then granted
    else (skipped.0, req ∷ skipped.1, skipped.2)

-- The client no longer holds the lock.
unfoldable pub drop_holder : String → LockState → LockState
drop_holder client ls = record ls {
  exclusive_holder = if is_held_by ls.exclusive_holder client then none else ls.exclusive_holder;
  shared_holders = discard client ls.shared_holders;
}

-- `w.discard(client)` for every entry.
unfoldable pub discard_waits : String → Dict (List String) → Dict (List String)
discard_waits client [] = []
discard_waits client ((k, w) ∷ d) = (k, discard client w) ∷ discard_waits client d

unfoldable pub release_on : String → String → LockState → LockManager → LockManager
unfolding drop_holder discard_waits
release_on lock_id client ls m =
    let dropped =
      if is_held_by ls.exclusive_holder client
      then decrement_gauge "active_locks" m.metrics
      else m.metrics in
    let (ls', still, metrics) = grant_waiting ls.waiting_queue (drop_holder client ls) dropped in
    record m {
      locks = insert lock_id (record ls' { waiting_queue = still }) m.locks;
      wait_for = discard_waits client (erase client m.wait_for);
      metrics = metrics;
    }

unfoldable pub apply_release : String → String → LockManager → LockManager
apply_release lock_id client m = elim (lookup lock_id m.locks) [
  | none ↦ m
  | some ls ↦ release_on lock_id client ls m
]

unfoldable pub on_commit : Command → LockManager → LockManager × Outcome (Unit {0})
on_commit (lock_acquire cmd) m = apply_acquire cmd m
on_commit (lock_release lock_id client) m = (apply_release lock_id client m, returned tt)
on_commit other m = (m, returned tt)

-- The commands of the log, in order; one that raises is logged and passed over.
unfoldable pub apply_all : List Command → LockManager → LockManager
apply_all [] m = m
apply_all (c ∷ cs) m = apply_all cs (on_commit c m).0
