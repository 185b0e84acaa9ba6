-- ===== src/Lock/Gauge.antt =====
-- The gauge of held locks of src/nodes/lock_manager.py.
use distributed_sync_system.Base.{
  ◌≡◌, refl, none, some, [], ◌∷◌, String, lookup, lookup_or, lookup-insert, lookup-insert_self,
  arith, pos, ◌+ℤ◌, add, discard, insert, erase,
}
use distributed_sync_system.Metrics.{Registry, increment_gauge, gauge_value}
use distributed_sync_system.Lock.State.{
  LockManager, LockState, shared, new_lock, lock_type_of, can_acquire_shared, is_held_by,
}
use distributed_sync_system.Lock.Machine.{
  AcquireCommand, apply_acquire, apply_release, acquire_on, request_of, release_on, drop_holder,
  grant_waiting, discard_waits,
}

gauge_value-increment_gauge :
    (name : String) (r : Registry)
    → gauge_value name (increment_gauge name r) ≡ gauge_value name r +ℤ pos 1
unfolding gauge_value increment_gauge
gauge_value-increment_gauge name r = grind (arith, lookup-insert)

-- A lock that one client shares.
shared_by : String → String → LockState
unfolding new_lock
shared_by lock_id client = record (new_lock lock_id) { shared_holders = client ∷ [] }

apply_acquire_new :
    (cmd : AcquireCommand) (m : LockManager)
    → lookup cmd.lock_id m.locks ≡ none
    → lock_type_of cmd.lock_type ≡ some shared
    → (apply_acquire cmd m).0 ≡ record m {
      locks = insert cmd.lock_id (shared_by cmd.lock_id cmd.client_id) m.locks;
      metrics = increment_gauge "active_locks" m.metrics;
    }
unfolding apply_acquire shared_by acquire_on request_of lookup_or new_lock can_acquire_shared add
apply_acquire_new cmd m e t = rw (t, apply_acquire) (rw (e, lookup_or) refl)

apply_release_shared :
    (lock_id client : String) (m : LockManager)
    → lookup lock_id m.locks ≡ some (shared_by lock_id client)
    → apply_release lock_id client m ≡ record m {
      locks = insert lock_id (new_lock lock_id) m.locks;
      wait_for = discard_waits client (erase client m.wait_for);
    }
unfolding apply_release release_on shared_by new_lock drop_holder grant_waiting is_held_by discard
apply_release_shared lock_id client m e = rw (e, apply_release) (ground (arith))

-- A client that takes a new lock to share and gives it back leaves nobody on the lock, and the gauge
-- of held locks one higher than before.
pub active_locks_drift :
    (cmd : AcquireCommand) (m : LockManager)
    → lookup cmd.lock_id m.locks ≡ none
    → lock_type_of cmd.lock_type ≡ some shared
    → let m' = apply_release cmd.lock_id cmd.client_id (apply_acquire cmd m).0 in
      (lookup cmd.lock_id m'.locks ≡ some (new_lock cmd.lock_id))
      × (gauge_value "active_locks" m'.metrics ≡ gauge_value "active_locks" m.metrics +ℤ pos 1)
active_locks_drift cmd m e t = rw (apply_acquire_new cmd m e t) (
    rw
      (apply_release_shared cmd.lock_id cmd.client_id
        (record m {
          locks = insert cmd.lock_id (shared_by cmd.lock_id cmd.client_id) m.locks;
          metrics = increment_gauge "active_locks" m.metrics;
        })
        (lookup-insert_self cmd.lock_id (shared_by cmd.lock_id cmd.client_id) m.locks))
      (
        lookup-insert_self cmd.lock_id (new_lock cmd.lock_id)
            (insert cmd.lock_id (shared_by cmd.lock_id cmd.client_id) m.locks),
        gauge_value-increment_gauge "active_locks" m.metrics,
      ))
