-- ===== src/Lock/Exclusion.antt =====
-- Shared and exclusive holders of the locks of src/nodes/lock_manager.py.
use distributed_sync_system.Base.{
  ◌≡◌, refl, ◌⊎◌, inl, inr, none, some, List, [], ◌∷◌, String, Dict, lookup, lookup_or, insert,
  lookup-insert, discard, add, arith, Bool-cases, Option-cases, if◌then◌else◌,
}
use distributed_sync_system.Metrics.{Registry, increment_gauge, decrement_gauge}
use distributed_sync_system.Lock.State.{
  LockRequest, LockState, new_lock, can_acquire_shared, can_acquire_exclusive, is_held_by,
  LockManager, lock_type_of,
}
use distributed_sync_system.Lock.Machine.{
  AcquireCommand, Command, lock_acquire, lock_release, other, acquire_on, wait, request_of,
  apply_acquire, grant_waiting, drop_holder, release_on, apply_release, on_commit, apply_all,
}
use distributed_sync_system.Lock.Deadlock.{
  forget_shared, abort_at, abort, resolve_deadlock, resolve_all, youngest, lock_keys,
}

-- A lock with an exclusive holder has no shared one.
abbrev pub Exclusive : LockState → Type 0
Exclusive ls = (ls.exclusive_holder ≡ none) ⊎ (ls.shared_holders ≡ [])

abbrev pub AllExclusive : LockManager → Type 0
AllExclusive m = (k : String) (ls : LockState) → lookup k m.locks ≡ some ls → Exclusive ls

insert-Exclusive :
    (key : String) (ls : LockState) (locks : Dict LockState)
    → ((k : String) (ls : LockState) → lookup k locks ≡ some ls → Exclusive ls)
    → Exclusive ls
    → (k : String) (l : LockState) → lookup k (insert key ls locks) ≡ some l
    → Exclusive l
insert-Exclusive key ls locks a x k l h = ground (arith, lookup-insert key k ls locks, a k l)

found-Exclusive :
    (key : String) (m : LockManager)
    → AllExclusive m
    → Exclusive (lookup_or key (new_lock key) m.locks)
unfolding lookup_or new_lock
found-Exclusive key m a = elim (Option-cases (lookup key m.locks)) [
  | inl e ↦ ground arith
  | inr (ls, e) ↦ ground (arith, a key ls e)
]

acquire_on-AllExclusive :
    (req : LockRequest) (ls : LockState) (m : LockManager)
    → AllExclusive m
    → Exclusive ls
    → AllExclusive (acquire_on req ls m)
unfolding acquire_on wait can_acquire_shared can_acquire_exclusive
acquire_on-AllExclusive req ls m a x k l h = grind (arith, lookup-insert, a k l)

discard_nil : (client : String) → discard client [] ≡ []
unfolding discard
discard_nil client = refl

grant_waiting-Exclusive :
    (queue : List LockRequest) (ls : LockState) (metrics : Registry)
    → Exclusive ls
    → Exclusive (grant_waiting queue ls metrics).0
unfolding grant_waiting can_acquire_shared can_acquire_exclusive
grant_waiting-Exclusive [] ls metrics x = x
grant_waiting-Exclusive (req ∷ queue) ls metrics x = ground (
  arith,
  grant_waiting-Exclusive queue ls metrics,
  grant_waiting-Exclusive queue (record ls { shared_holders = add req.client_id ls.shared_holders })
      (increment_gauge "active_locks" metrics),
)

drop_holder-Exclusive :
    (client : String) (ls : LockState) → Exclusive ls → Exclusive (drop_holder client ls)
unfolding drop_holder
drop_holder-Exclusive client ls x = ground (arith, discard_nil client)

release_on-AllExclusive :
    (lock_id client : String) (ls : LockState) (m : LockManager)
    → AllExclusive m
    → Exclusive ls
    → AllExclusive (release_on lock_id client ls m)
unfolding release_on
release_on-AllExclusive lock_id client ls m a x =
    let dropped =
      if is_held_by ls.exclusive_holder client
      then decrement_gauge "active_locks" m.metrics
      else m.metrics in
    let g = grant_waiting ls.waiting_queue (drop_holder client ls) dropped in
    insert-Exclusive lock_id (record (g.0) { waiting_queue = g.1 }) m.locks a
      (grant_waiting-Exclusive ls.waiting_queue (drop_holder client ls) dropped
        (drop_holder-Exclusive client ls x))

apply_release-AllExclusive :
    (lock_id client : String) (m : LockManager)
    → AllExclusive m
    → AllExclusive (apply_release lock_id client m)
unfolding apply_release
apply_release-AllExclusive lock_id client m a = elim (Option-cases (lookup lock_id m.locks)) [
  | inl e ↦ rw (e, apply_release) a
  | inr (ls, e) ↦
      rw (e, apply_release) (release_on-AllExclusive lock_id client ls m a (a lock_id ls e))
]

apply_acquire-AllExclusive :
    (cmd : AcquireCommand) (m : LockManager) → AllExclusive m → AllExclusive (apply_acquire cmd m).0
unfolding apply_acquire
apply_acquire-AllExclusive cmd m a = elim (Option-cases (lock_type_of cmd.lock_type)) [
  | inl e ↦ rw (e, apply_acquire) a
  | inr (t, e) ↦
      rw (e, apply_acquire)
        (acquire_on-AllExclusive (request_of cmd t)
          (lookup_or cmd.lock_id (new_lock cmd.lock_id) m.locks) m a
          (found-Exclusive cmd.lock_id m a))
]

-- Whatever commands the log brings, valid or not, no lock has an exclusive holder and a shared one at
-- once afterwards, if none had them before.
pub apply_all-AllExclusive :
    (cs : List Command) (m : LockManager) → AllExclusive m → AllExclusive (apply_all cs m)
unfolding apply_all on_commit
apply_all-AllExclusive [] m a = a
apply_all-AllExclusive (lock_acquire cmd ∷ cs) m a =
    apply_all-AllExclusive cs _ (apply_acquire-AllExclusive cmd m a)
apply_all-AllExclusive (lock_release lock_id client ∷ cs) m a =
    apply_all-AllExclusive cs _ (apply_release-AllExclusive lock_id client m a)
apply_all-AllExclusive (other ∷ cs) m a = apply_all-AllExclusive cs m a

forget_shared-AllExclusive :
    (key client : String) (m : LockManager)
    → AllExclusive m
    → AllExclusive (forget_shared key client m)
unfolding forget_shared
forget_shared-AllExclusive key client m a = elim (Option-cases (lookup key m.locks)) [
  | inl e ↦ rw (e, forget_shared) a
  | inr (ls, e) ↦
      rw (e, forget_shared)
        (insert-Exclusive key (record ls { shared_holders = discard client ls.shared_holders })
          m.locks a (ground (arith, a key ls e, discard_nil client)))
]

abort_at-AllExclusive :
    (key client : String) (m : LockManager) → AllExclusive m → AllExclusive (abort_at key client m)
unfolding abort_at
abort_at-AllExclusive key client m a = elim (Option-cases (lookup key m.locks)) [
  | inl e ↦ rw (e, abort_at) a
  | inr (ls, e) ↦ elim (Bool-cases (is_held_by ls.exclusive_holder client)) [
    | inl h ↦
        rw (e, abort_at)
          (rw h (
            forget_shared-AllExclusive key client _
              (apply_release-AllExclusive ls.lock_id client m a)))
    | inr h ↦ rw (e, abort_at) (rw h (forget_shared-AllExclusive key client m a))
  ]
]

abort-AllExclusive :
    (keys : List String) (client : String) (m : LockManager)
    → AllExclusive m
    → AllExclusive (abort keys client m)
unfolding abort
abort-AllExclusive [] client m a = a
abort-AllExclusive (key ∷ keys) client m a =
    abort-AllExclusive keys client (abort_at key client m) (abort_at-AllExclusive key client m a)

resolve_deadlock-AllExclusive :
    (cycle : List String) (m : LockManager)
    → AllExclusive m
    → AllExclusive (resolve_deadlock cycle m)
unfolding resolve_deadlock
resolve_deadlock-AllExclusive cycle m a = elim (Option-cases (youngest cycle m.client_requests)) [
  | inl e ↦ rw (e, resolve_deadlock) a
  | inr (r, e) ↦ rw (e, resolve_deadlock) (abort-AllExclusive (lock_keys m.locks) r.client_id m a)
]

-- The resolution of any lists of clients as cycles leaves no lock with an exclusive holder and a shared
-- one at once, if none had them before.
pub resolve_all-AllExclusive :
    (cycles : List (List String)) (m : LockManager)
    → AllExclusive m
    → AllExclusive (resolve_all cycles m)
unfolding resolve_all
resolve_all-AllExclusive [] m a = a
resolve_all-AllExclusive (cycle ∷ cycles) m a =
    resolve_all-AllExclusive cycles _ (resolve_deadlock-AllExclusive cycle _ a)
