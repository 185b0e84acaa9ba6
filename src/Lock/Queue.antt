-- ===== src/Lock/Queue.antt =====
-- Who gets a lock of src/nodes/lock_manager.py, at once or from its queue.
use distributed_sync_system.Base.{
  ◌≡◌, refl, false, none, some, List, [], ◌∷◌, String, lookup, lookup-insert_self, discard, add,
  arith, if◌then◌else◌,
}
use distributed_sync_system.Metrics.{Registry, increment_gauge, decrement_gauge}
use distributed_sync_system.Lock.State.{
  LockRequest, LockState, can_acquire_shared, can_acquire_exclusive, is_held_by, LockManager,
  shared, exclusive, is_empty,
}
use distributed_sync_system.Lock.Machine.{
  grant_waiting, drop_holder, release_on, apply_release, is_shared, is_exclusive,
}

-- The requests of the queue that ask for the lock alone, in order.
unfoldable pub exclusives : List LockRequest → List LockRequest
exclusives [] = []
exclusives (r ∷ rs) =
    let rest = exclusives rs in if is_exclusive r.lock_type then r ∷ rest else rest

-- The shared holders with the clients of the queue's shared requests.
unfoldable pub with_shared : List LockRequest → List String → List String
with_shared [] s = s
with_shared (r ∷ rs) s = with_shared rs (if is_shared r.lock_type then add r.client_id s else s)

is_empty-add : (x : String) (s : List String) → is_empty (add x s) ≡ false
unfolding add
is_empty-add x [] = refl
is_empty-add x (y ∷ s) = ground arith

-- While somebody holds the lock alone, the queue waits.
grant_waiting_held :
    (queue : List LockRequest) (ls : LockState) (metrics : Registry) (c : String)
    → ls.exclusive_holder ≡ some c
    → grant_waiting queue ls metrics ≡ (ls, queue, metrics)
unfolding grant_waiting can_acquire_shared can_acquire_exclusive
grant_waiting_held [] ls metrics c h = refl
grant_waiting_held (r ∷ queue) ls metrics c h =
    ground (arith, grant_waiting_held queue ls metrics c h)

-- While some share it, all that want to share it get it, and the others wait.
grant_waiting_shared :
    (queue : List LockRequest) (ls : LockState) (metrics : Registry)
    → ls.exclusive_holder ≡ none
    → is_empty ls.shared_holders ≡ false
    → let g = grant_waiting queue ls metrics in
      (g.0 ≡ record ls { shared_holders = with_shared queue ls.shared_holders })
      × (g.1 ≡ exclusives queue)
unfolding grant_waiting can_acquire_shared can_acquire_exclusive with_shared exclusives
grant_waiting_shared [] ls metrics h s = (refl, refl)
grant_waiting_shared (r ∷ queue) ls metrics h s = ground (
  arith,
  grant_waiting_shared queue ls metrics,
  grant_waiting_shared queue (record ls { shared_holders = add r.client_id ls.shared_holders })
      (increment_gauge "active_locks" metrics),
  is_empty-add r.client_id ls.shared_holders,
)

grant_waiting-shared_head :
    (r : LockRequest) (queue : List LockRequest) (ls : LockState) (metrics : Registry)
    → ls.exclusive_holder ≡ none
    → ls.shared_holders ≡ []
    → r.lock_type ≡ shared
    → let g = grant_waiting (r ∷ queue) ls metrics in
      (g.0 ≡ record ls { shared_holders = with_shared queue (r.client_id ∷ []) })
      × (g.1 ≡ exclusives queue)
unfolding grant_waiting can_acquire_shared can_acquire_exclusive add
grant_waiting-shared_head r queue ls metrics h s t = ground (
  arith,
  grant_waiting_shared queue (record ls { shared_holders = add r.client_id ls.shared_holders })
      (increment_gauge "active_locks" metrics),
)

grant_waiting_exclusive_head :
    (r : LockRequest) (queue : List LockRequest) (ls : LockState) (metrics : Registry)
    → ls.exclusive_holder ≡ none
    → ls.shared_holders ≡ []
    → r.lock_type ≡ exclusive
    → let g = grant_waiting (r ∷ queue) ls metrics in
      (g.0 ≡ record ls { exclusive_holder = some r.client_id }) × (g.1 ≡ [])
unfolding grant_waiting can_acquire_shared can_acquire_exclusive
grant_waiting_exclusive_head r queue ls metrics h s t = ground arith

drop_holder_only :
    (client : String) (ls : LockState)
    → ls.exclusive_holder ≡ some client
    → ls.shared_holders ≡ []
    → ((drop_holder client ls).exclusive_holder ≡ none)
      × ((drop_holder client ls).shared_holders ≡ [])
unfolding drop_holder is_held_by discard
drop_holder_only client ls x s = ground arith

drop_holder_rest : (client : String) (ls : LockState) → (drop_holder client ls).lock_id ≡ ls.lock_id
unfolding drop_holder
drop_holder_rest client ls = refl

-- The lock after a release: what the loop over its queue makes of it.
lookup-apply_release :
    (lock_id client : String) (m : LockManager) (ls : LockState)
    → lookup lock_id m.locks ≡ some ls
    → (metrics : Registry) × (let g =
          grant_waiting ls.waiting_queue (drop_holder client ls) metrics in
        lookup lock_id (apply_release lock_id client m).locks
        ≡ some (record (g.0) { waiting_queue = g.1 }))
unfolding apply_release release_on
lookup-apply_release lock_id client m ls e =
    let dropped =
      if is_held_by ls.exclusive_holder client
      then decrement_gauge "active_locks" m.metrics
      else m.metrics in
    (dropped, rw (e, apply_release) (lookup-insert_self lock_id _ m.locks))

-- A lock that its exclusive holder gives back, nobody sharing it, and whose next waiter wants to share it,
-- goes to all that want to share it; the requests for it alone go on waiting, in order.
pub apply_release_shares :
    (lock_id client : String) (m : LockManager) (ls : LockState) (req : LockRequest)
    (rest : List LockRequest)
    → lookup lock_id m.locks ≡ some ls
    → ls.exclusive_holder ≡ some client
    → ls.shared_holders ≡ []
    → ls.waiting_queue ≡ req ∷ rest
    → req.lock_type ≡ shared
    → lookup lock_id (apply_release lock_id client m).locks
      ≡ some (record ls {
        exclusive_holder = none;
        shared_holders = with_shared rest (req.client_id ∷ []);
        waiting_queue = exclusives rest;
      })
apply_release_shares lock_id client m ls req rest e x s q t =
    let (metrics, after) = lookup-apply_release lock_id client m ls e in
    let (x', s') = drop_holder_only client ls x s in
    ground (
      arith,
      after,
      drop_holder_rest client ls,
      grant_waiting-shared_head req rest (drop_holder client ls) metrics x' s' t,
    )

-- A lock that its exclusive holder gives back, nobody sharing it, and whose next waiter wants it alone, goes
-- to that waiter, and every request behind it is gone from the queue without having been granted.
pub apply_release_loses :
    (lock_id client : String) (m : LockManager) (ls : LockState) (req : LockRequest)
    (rest : List LockRequest)
    → lookup lock_id m.locks ≡ some ls
    → ls.exclusive_holder ≡ some client
    → ls.shared_holders ≡ []
    → ls.waiting_queue ≡ req ∷ rest
    → req.lock_type ≡ exclusive
    → lookup lock_id (apply_release lock_id client m).locks
      ≡ some (record ls {
        exclusive_holder = some req.client_id;
        shared_holders = [];
        waiting_queue = [];
      })
apply_release_loses lock_id client m ls req rest e x s q t =
    let (metrics, after) = lookup-apply_release lock_id client m ls e in
    let (x', s') = drop_holder_only client ls x s in
    ground (
      arith,
      after,
      drop_holder_rest client ls,
      grant_waiting_exclusive_head req rest (drop_holder client ls) metrics x' s' t,
    )
