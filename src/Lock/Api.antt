-- ===== src/Lock/Api.antt =====
-- `acquire` and `release` of src/nodes/lock_manager.py, which clients call. The Raft log's answer to
-- the command that they submit is an argument, as are the fresh request id and the clock.
use distributed_sync_system.Base.{ℕ, Option, none, some, String, ◌==◌, if◌then◌else◌}
use distributed_sync_system.Metrics.{Registry, count_up}
use distributed_sync_system.Raft.Client.{ClientReply, not_leader}
use distributed_sync_system.Lock.Machine.{Command, lock_acquire, lock_release}

pub data Answer : Type 0 where
  error_not_leader : Option String → Answer
  acquired : (request_id lock_id : String) → Answer
  released : (lock_id : String) → Answer

-- `timeout or config.LOCK_TIMEOUT`
unfoldable pub timeout_or : Option ℕ → ℕ → ℕ
timeout_or none default = default
timeout_or (some t) default = if t == 0 then default else t

unfoldable pub acquire_command : String → String → String → String → Option ℕ → ℕ → ℕ → Command
acquire_command request_id lock_id client_id lock_type wanted default now = lock_acquire (record {
  request_id = request_id;
  lock_id = lock_id;
  client_id = client_id;
  lock_type = lock_type;
  timeout = timeout_or wanted default;
  timestamp = now;
})

-- What `acquire` makes of the log's answer.
unfoldable pub acquire_answer : String → String → ClientReply → Registry → Registry × Answer
acquire_answer request_id lock_id (not_leader leader) metrics = (metrics, error_not_leader leader)
acquire_answer request_id lock_id _ metrics =
    (count_up "lock_acquire_total" 1 metrics, acquired request_id lock_id)

unfoldable pub release_command : String → String → Command
release_command lock_id client_id = lock_release lock_id client_id

unfoldable pub release_answer : String → ClientReply → Registry → Registry × Answer
release_answer lock_id (not_leader leader) metrics = (metrics, error_not_leader none)
release_answer lock_id _ metrics = (count_up "lock_release_total" 1 metrics, released lock_id)
