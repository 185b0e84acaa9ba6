-- ===== src/Lock/Tests.antt =====
-- Runs of the lock manager of src/nodes/lock_manager.py.
use distributed_sync_system.Base.{
  All, ℕ, ◌≡◌, refl, true, none, some, List, [], ◌∷◌, String, Dict, lookup, lookup_or, insert,
  erase, add, union, discard, contains, str_dec, arith, pos, ◌+ℤ◌, ◌-ℤ◌, ite, raised, value_error,
}
use distributed_sync_system.Metrics.{
  Registry, count_up, counter, gauge, increment_gauge, decrement_gauge, gauge_value, counter_value,
}
use distributed_sync_system.Raft.Client.{timeout}
use distributed_sync_system.Lock.State.{
  LockRequest, LockState, LockManager, init, shared, exclusive, new_lock, lock_type_of, is_free,
  can_acquire_shared, can_acquire_exclusive, is_held_by,
}
use distributed_sync_system.Lock.Machine.{
  AcquireCommand, lock_acquire, lock_release, exclusive_set, holders, wait, acquire_on, request_of,
  apply_acquire, grant_waiting, drop_holder, discard_waits, release_on, apply_release, on_commit,
  apply_all,
}
use distributed_sync_system.Lock.Cycles.{
  from_client, visit_all, dfs, search_from, keys, clients, find_cycles,
}
use distributed_sync_system.Lock.Deadlock.{
  later_of, youngest, forget_shared, abort_at, abort, lock_keys, resolve_deadlock, resolve_all,
  detect,
}
use distributed_sync_system.Lock.Api.{acquire_answer, acquired}
use distributed_sync_system.Lock.Exclusion.{
  AllExclusive, apply_all-AllExclusive, resolve_all-AllExclusive,
}
use distributed_sync_system.Lock.Queue.{
  with_shared, exclusives, apply_release_shares, apply_release_loses,
}
use distributed_sync_system.Lock.Waiting.{
  IsHolder, apply_acquire-Blocked, apply_acquire_granted, acquired_while_waiting,
}
use distributed_sync_system.Lock.Victims.{
  InTable, NoneLater, youngest_lem, resolve_deadlock_again, HoldsNone,
}
use distributed_sync_system.Lock.Ending.{detect_total}
use distributed_sync_system.Lock.Walks.{IsCycle, find_cycles-IsCycle}
use distributed_sync_system.Lock.Gauge.{active_locks_drift}

program : Unit {0}
unfolding init str_dec lookup lookup_or insert erase add union discard contains ◌+ℤ◌ ◌-ℤ◌ count_up
    counter gauge increment_gauge decrement_gauge gauge_value counter_value new_lock lock_type_of
    is_free can_acquire_shared can_acquire_exclusive is_held_by exclusive_set holders wait
    acquire_on request_of apply_acquire grant_waiting drop_holder discard_waits release_on
    apply_release on_commit apply_all from_client visit_all dfs search_from keys clients find_cycles
    later_of youngest forget_shared abort_at abort lock_keys resolve_deadlock resolve_all detect
    acquire_answer
program = tt

abbrev registry : Registry
registry = record { counters = []; gauges = []; histograms = [] }

abbrev empty : LockManager
unfolding program
empty = init registry

abbrev acquire : String → String → String → ℕ → AcquireCommand
acquire lock_id client lock_type now = record {
  request_id = client;
  lock_id = lock_id;
  client_id = client;
  lock_type = lock_type;
  timeout = 30;
  timestamp = now;
}

abbrev request : String → String → ℕ → LockRequest
unfolding lock_type_of
request client lock_type now = record {
  request_id = client;
  lock_id = "l";
  client_id = client;
  lock_type = ite (str_dec lock_type "shared") shared exclusive;
  timestamp = now;
  timeout = 30;
}

-- Held by `a` alone, with a queue.
abbrev held_by_a : List LockRequest → LockState
held_by_a queue = record {
  lock_id = "l";
  shared_holders = [];
  exclusive_holder = some "a";
  waiting_queue = queue;
}

abbrev manager : List LockRequest → LockManager
manager queue = record empty { locks = ("l", held_by_a queue) ∷ [] }

empty-AllExclusive : AllExclusive empty
unfolding program
empty-AllExclusive k ls h = cc

apply_all-AllExclusive_example : AllExclusive (
    apply_all
      (lock_acquire (acquire "l" "a" "shared" 1)
        ∷ lock_acquire (acquire "l" "b" "exclusive" 2)
        ∷ lock_release "l" "a"
        ∷ [])
      empty)
apply_all-AllExclusive_example =
    apply_all-AllExclusive
      (lock_acquire (acquire "l" "a" "shared" 1)
        ∷ lock_acquire (acquire "l" "b" "exclusive" 2)
        ∷ lock_release "l" "a"
        ∷ [])
      empty empty-AllExclusive

-- An unknown lock type is an exception of `_apply_acquire`.
unknown_lock_type : (apply_acquire (acquire "l" "a" "both" 1) empty).1 ≡ raised value_error
unfolding program
unknown_lock_type = refl

kept_apart : AllExclusive (resolve_all (("a" ∷ "b" ∷ []) ∷ []) empty)
kept_apart = resolve_all-AllExclusive (("a" ∷ "b" ∷ []) ∷ []) empty empty-AllExclusive

abbrev sharing : List LockRequest
unfolding program
sharing = request "b" "shared" 2 ∷ request "c" "exclusive" 3 ∷ request "d" "shared" 4 ∷ []

apply_release_shares_example :
    lookup "l" (apply_release "l" "a" (manager sharing)).locks
    ≡ some (record {
      lock_id = "l";
      shared_holders = "b" ∷ "d" ∷ [];
      exclusive_holder = none;
      waiting_queue = request "c" "exclusive" 3 ∷ [];
    })
unfolding program with_shared exclusives
apply_release_shares_example =
    apply_release_shares "l" "a" (manager sharing) (held_by_a sharing) (request "b" "shared" 2)
      (request "c" "exclusive" 3 ∷ request "d" "shared" 4 ∷ []) refl refl refl refl refl

abbrev alone : List LockRequest
unfolding program
alone = request "b" "exclusive" 2 ∷ request "c" "exclusive" 3 ∷ []

apply_release_loses_example :
    lookup "l" (apply_release "l" "a" (manager alone)).locks
    ≡ some (record {
      lock_id = "l";
      shared_holders = [];
      exclusive_holder = some "b";
      waiting_queue = [];
    })
unfolding program
apply_release_loses_example =
    apply_release_loses "l" "a" (manager alone) (held_by_a alone) (request "b" "exclusive" 2)
      (request "c" "exclusive" 3 ∷ []) refl refl refl refl refl

queued_behind :
    let m' = (apply_acquire (acquire "l" "b" "shared" 2) (manager [])).0 in
    let req = request_of (acquire "l" "b" "shared" 2) shared in
    (lookup "l" m'.locks ≡ some (held_by_a (req ∷ [])))
    × (lookup "b" m'.client_requests ≡ some req)
    × ((h : String) → IsHolder h (held_by_a []) → contains h (lookup_or "b" [] m'.wait_for) ≡ true)
unfolding program
queued_behind =
    apply_acquire-Blocked (acquire "l" "b" "shared" 2) shared (manager []) refl (λ q. cc)

lock_given :
    let m' = (apply_acquire (acquire "l" "b" "shared" 2) empty).0 in
    (lookup "l" m'.locks ≡ some (record (new_lock "l") { shared_holders = "b" ∷ [] }))
    × (m'.wait_for ≡ [])
    × (m'.client_requests ≡ [])
unfolding program
lock_given = apply_acquire_granted (acquire "l" "b" "shared" 2) shared empty "l" refl refl

queued_answer :
    ((acquire_answer "b" "l" (timeout 0) registry).1 ≡ acquired "b" "l")
    × (ls' : LockState) × (lookup "l"
          (apply_acquire (acquire "l" "b" "shared" 2) (manager [])).0.locks
        ≡ some ls')
    × (ls'.exclusive_holder ≡ some "a")
    × (ls'.shared_holders ≡ [])
unfolding program
queued_answer =
    acquired_while_waiting (acquire "l" "b" "shared" 2) shared (manager []) (timeout 0) registry
      refl (λ q. cc) (λ l q. cc)

abbrev table : Dict LockRequest
unfolding program
table =
    ("a", request "a" "shared" 2)
    ∷ ("b", request "b" "shared" 3)
    ∷ ("c", request "c" "shared" 9)
    ∷ []

youngest_lem_example :
    InTable (request "b" "shared" 3) table
    × (contains "b" ("a" ∷ "b" ∷ []) ≡ true)
    × NoneLater ("a" ∷ "b" ∷ []) 3 table
unfolding program
youngest_lem_example = youngest_lem ("a" ∷ "b" ∷ []) table (request "b" "shared" 3) refl

-- Two clients share the lock, and each waits for the other.
abbrev upgrading : LockManager
unfolding program
upgrading =
    apply_all
      (lock_acquire (acquire "l" "a" "shared" 1)
        ∷ lock_acquire (acquire "l" "b" "shared" 2)
        ∷ lock_acquire (acquire "l" "a" "exclusive" 3)
        ∷ lock_acquire (acquire "l" "b" "exclusive" 4)
        ∷ [])
      empty

upgrading_cycles :
    find_cycles upgrading.wait_for ≡ some (("a" ∷ []) ∷ ("a" ∷ "b" ∷ []) ∷ ("b" ∷ []) ∷ [])
unfolding program
upgrading_cycles = refl

upgrading-HoldsNone : HoldsNone "b" upgrading
unfolding program
upgrading-HoldsNone k ls h = ground arith

found : youngest ("a" ∷ "b" ∷ []) upgrading.client_requests ≡ some (request "b" "exclusive" 4)
unfolding program
found = refl

resolve_deadlock_again_example :
    find_cycles (resolve_deadlock ("a" ∷ "b" ∷ []) upgrading).wait_for
    ≡ find_cycles upgrading.wait_for
unfolding request
resolve_deadlock_again_example =
    resolve_deadlock_again ("a" ∷ "b" ∷ []) upgrading (request "b" "exclusive" 4) found
      upgrading-HoldsNone

gauge_stays :
    let m' = apply_release "l" "a" (apply_acquire (acquire "l" "a" "shared" 1) empty).0 in
    (lookup "l" m'.locks ≡ some (new_lock "l")) × (gauge_value "active_locks" m'.metrics ≡ pos 1)
unfolding program
gauge_stays = active_locks_drift (acquire "l" "a" "shared" 1) empty refl refl

detect_total_example :
    (cs : List (List String)) × (find_cycles upgrading.wait_for ≡ some cs)
    × (detect upgrading ≡ some (resolve_all cs upgrading))
detect_total_example = detect_total upgrading

find_cycles-IsCycle_example :
    All (IsCycle upgrading.wait_for) (("a" ∷ []) ∷ ("a" ∷ "b" ∷ []) ∷ ("b" ∷ []) ∷ [])
find_cycles-IsCycle_example =
    find_cycles-IsCycle upgrading.wait_for (("a" ∷ []) ∷ ("a" ∷ "b" ∷ []) ∷ ("b" ∷ []) ∷ [])
      upgrading_cycles
