-- ===== src/Lock/Waiting.antt =====
-- Requests that have to wait, in src/nodes/lock_manager.py, and what their clients are told.
use distributed_sync_system.Base.{
  ite, str_dec, ◌≡◌, ◌≢◌, refl, ◌⊎◌, inl, inr, true, Option, none, some, [], ◌∷◌, ◌++◌, String,
  lookup, lookup_or, lookup-insert, lookup-insert_self, add, union, contains, contains-union, arith,
  returned,
}
use distributed_sync_system.Metrics.{Registry}
use distributed_sync_system.Raft.Client.{ClientReply, not_leader, done, timeout}
use distributed_sync_system.Lock.State.{
  LockType, LockState, new_lock, can_acquire_shared, can_acquire_exclusive, LockManager, shared,
  exclusive, lock_type_of,
}
use distributed_sync_system.Lock.Machine.{
  AcquireCommand, acquire_on, wait, request_of, apply_acquire, exclusive_set, holders,
}
use distributed_sync_system.Lock.Api.{acquire_answer, acquired}

-- The lock that a command is about, as the manager has it.
abbrev pub target : AcquireCommand → LockManager → LockState
target cmd m = lookup_or cmd.lock_id (new_lock cmd.lock_id) m.locks

-- A request that the holders of a lock keep waiting.
abbrev pub Blocked : LockType → LockState → Type 0
Blocked shared ls = ls.exclusive_holder ≢ none
Blocked exclusive ls = (ls.exclusive_holder ≢ none) ⊎ (ls.shared_holders ≢ [])

apply_acquire-wait :
    (cmd : AcquireCommand) (t : LockType) (m : LockManager)
    → lock_type_of cmd.lock_type ≡ some t
    → Blocked t (target cmd m)
    → apply_acquire cmd m ≡ (wait (request_of cmd t) (target cmd m) m, returned tt)
unfolding apply_acquire acquire_on request_of can_acquire_shared can_acquire_exclusive
apply_acquire-wait cmd shared m e b = ground arith
apply_acquire-wait cmd exclusive m e b = ground arith

-- A request that the holders of a lock leave room for.
abbrev pub Grantable : LockType → LockState → Type 0
Grantable shared ls = ls.exclusive_holder ≡ none
Grantable exclusive ls = (ls.exclusive_holder ≡ none) × (ls.shared_holders ≡ [])

-- A holder of a lock; nobody is told apart by the empty name.
abbrev pub IsHolder : String → LockState → Type 0
IsHolder h ls = (contains h ls.shared_holders ≡ true) ⊎ (ls.exclusive_holder ≡ some h) × (h ≢ "")

contains-holders : (h : String) (ls : LockState) → IsHolder h ls → contains h (holders ls) ≡ true
unfolding holders contains
contains-holders h ls (inl s) =
    ground (arith, contains-union h ls.shared_holders (exclusive_set ls.exclusive_holder))
contains-holders h ls (inr (e, n)) =
    ground (arith, contains-union h ls.shared_holders (exclusive_set ls.exclusive_holder))

-- A request that has to wait is put last in the lock's queue and into the table of requests, the
-- holders stay, and the wait-for graph gets an edge from its client to each holder.
pub apply_acquire-Blocked :
    (cmd : AcquireCommand) (t : LockType) (m : LockManager)
    → lock_type_of cmd.lock_type ≡ some t
    → Blocked t (target cmd m)
    → let ls = target cmd m in
      let m' = (apply_acquire cmd m).0 in
      let req = request_of cmd t in
      (lookup cmd.lock_id m'.locks
        ≡ some (record ls { waiting_queue = ls.waiting_queue ++ req ∷ [] }))
      × (lookup cmd.request_id m'.client_requests ≡ some req)
      × ((h : String) → IsHolder h ls → contains h (lookup_or cmd.client_id [] m'.wait_for) ≡ true)
unfolding wait request_of lookup_or
apply_acquire-Blocked cmd t m e b =
    let w = apply_acquire-wait cmd t m e b in
    let ls = target cmd m in
    let before = lookup_or cmd.client_id [] m.wait_for in
    rw w (
      lookup-insert_self cmd.lock_id _ m.locks,
      lookup-insert_self cmd.request_id _ m.client_requests,
      λ h holds. ground (
        arith,
        lookup-insert_self cmd.client_id (union before (holders ls)) m.wait_for,
        contains-union h before (holders ls),
        contains-holders h ls holds,
      ),
    )

-- The lock with a client that it was granted to.
abbrev pub with_holder : LockType → String → LockState → LockState
with_holder shared client ls = record ls { shared_holders = add client ls.shared_holders }
with_holder exclusive client ls = record ls { exclusive_holder = some client }

-- A request for a lock that is not held against it is granted on commit: the client is then a holder,
-- beside the others that share it or alone; no other lock changes, nor does the queue or the wait-for
-- graph.
pub apply_acquire_granted :
    (cmd : AcquireCommand) (t : LockType) (m : LockManager) (k : String)
    → lock_type_of cmd.lock_type ≡ some t
    → Grantable t (target cmd m)
    → let m' = (apply_acquire cmd m).0 in
      (lookup k m'.locks
        ≡ ite
            (str_dec k cmd.lock_id)
            (some (with_holder t cmd.client_id (target cmd m)))
            (lookup k m.locks))
      × (m'.wait_for ≡ m.wait_for)
      × (m'.client_requests ≡ m.client_requests)
unfolding apply_acquire acquire_on request_of can_acquire_shared can_acquire_exclusive
apply_acquire_granted cmd shared m k e b =
    ground
      (arith, lookup-insert cmd.lock_id k (with_holder shared cmd.client_id (target cmd m)) m.locks)
apply_acquire_granted cmd exclusive m k e b = ground (
  arith,
  lookup-insert cmd.lock_id k (with_holder exclusive cmd.client_id (target cmd m)) m.locks,
)

told :
    (request_id lock_id : String) (answer : ClientReply) (metrics : Registry)
    → ((leader : Option String) → answer ≢ not_leader leader)
    → (acquire_answer request_id lock_id answer metrics).1 ≡ acquired request_id lock_id
unfolding acquire_answer
told request_id lock_id (not_leader leader) metrics n = absurd (n leader refl)
told request_id lock_id (done i) metrics n = refl
told request_id lock_id (timeout i) metrics n = refl

-- A client whose request has to wait is told, once the log has answered and whatever it answered, be
-- it a timeout, that it has the lock, though the lock's holders are those of before.
pub acquired_while_waiting :
    (cmd : AcquireCommand) (t : LockType) (m : LockManager) (answer : ClientReply)
    (metrics : Registry)
    → lock_type_of cmd.lock_type ≡ some t
    → Blocked t (target cmd m)
    → ((leader : Option String) → answer ≢ not_leader leader)
    → let ls = target cmd m in
      ((acquire_answer cmd.request_id cmd.lock_id answer metrics).1
        ≡ acquired cmd.request_id cmd.lock_id)
      × (ls' : LockState) × (lookup cmd.lock_id (apply_acquire cmd m).0.locks ≡ some ls')
      × (ls'.exclusive_holder ≡ ls.exclusive_holder)
      × (ls'.shared_holders ≡ ls.shared_holders)
acquired_while_waiting cmd t m answer metrics e b n = (
  told cmd.request_id cmd.lock_id answer metrics n,
  _,
  (apply_acquire-Blocked cmd t m e b).0,
  refl,
  refl,
)
