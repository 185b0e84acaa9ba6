-- ===== src/Lock/Deadlock.antt =====
-- `_resolve_deadlock` and a round of `_deadlock_detection_loop` of src/nodes/lock_manager.py.
use distributed_sync_system.Base.{
  Option, none, some, List, [], ◌∷◌, String, Dict, lookup, insert, contains, discard, ltb,
  if◌then◌else◌,
}
use distributed_sync_system.Metrics.{count_up}
use distributed_sync_system.Lock.State.{LockRequest, LockState, LockManager, is_held_by}
use distributed_sync_system.Lock.Machine.{apply_release}
use distributed_sync_system.Lock.Cycles.{find_cycles}

-- `max(…, key=timestamp, default=None)`: of equal timestamps the first.
unfoldable pub later_of : LockRequest → Option LockRequest → LockRequest
later_of r none = r
later_of r (some s) = if ltb r.timestamp s.timestamp then s else r

unfoldable pub youngest : List String → Dict LockRequest → Option LockRequest
youngest cycle [] = none
youngest cycle ((k, r) ∷ requests) =
    let rest = youngest cycle requests in
    if contains r.client_id cycle then some (later_of r rest) else rest

-- The body of the loop over the locks, at one of them: the release changes the state that the loop
-- goes on with.
unfoldable pub forget_shared : String → String → LockManager → LockManager
forget_shared key client m = elim (lookup key m.locks) [
  | none ↦ m
  | some ls ↦ record m {
    locks = insert key (record ls { shared_holders = discard client ls.shared_holders }) m.locks;
  }
]

unfoldable pub abort_at : String → String → LockManager → LockManager
abort_at key client m = elim (lookup key m.locks) [
  | none ↦ m
  | some ls ↦
      forget_shared key client
        (if is_held_by ls.exclusive_holder client then apply_release ls.lock_id client m else m)
]

unfoldable pub abort : List String → String → LockManager → LockManager
abort [] client m = m
abort (key ∷ keys) client m = abort keys client (abort_at key client m)

unfoldable pub lock_keys : Dict LockState → List String
lock_keys [] = []
lock_keys ((k, ls) ∷ locks) = k ∷ lock_keys locks

unfoldable pub resolve_deadlock : List String → LockManager → LockManager
resolve_deadlock cycle m = elim (youngest cycle m.client_requests) [
  | none ↦ m
  | some victim ↦ abort (lock_keys m.locks) victim.client_id m
]

unfoldable pub resolve_all : List (List String) → LockManager → LockManager
resolve_all [] m = m
resolve_all (cycle ∷ cycles) m =
    resolve_all cycles (
      resolve_deadlock cycle
        (record m { metrics = count_up "deadlock_detected_total" 1 m.metrics }))

unfoldable pub detect : LockManager → Option LockManager
detect m = elim (find_cycles m.wait_for) [ none ↦ none | some cycles ↦ some (resolve_all cycles m) ]
