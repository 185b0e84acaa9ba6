-- ===== src/Queue/Tasks.antt =====
-- The calls of src/nodes/queue_node.py between their awaits. The node has no lock: each command to Redis
-- is an await, at which other tasks, also of other nodes, may go on, or the task may be cancelled. A task
-- is what a call still has to do; `advance` does its next command and what follows up to the next.
pub mod Placed
pub mod Commands
pub mod Reading
pub mod Moves
pub mod Runs
pub mod Alone
pub mod Tests
use distributed_sync_system.Base.{
  zero, suc, ℕ, ◌+◌, ◌==◌, if◌then◌else◌, true, false, Option, none, some, List, [], ◌∷◌, String,
  Dict, ite, str_dec, Outcome, returned, raised,
}
use distributed_sync_system.Metrics.{count_up, decrement_gauge}
use distributed_sync_system.Queue.Keys.{msg_key, pending_key, in_flight_key}
use distributed_sync_system.Queue.Store.{Redis}
use distributed_sync_system.Queue.Message.{
  completed, value_of, Codec, Message, to_dict, from_dict, at_least, flatten, unflatten, str_of,
}
use distributed_sync_system.Queue.Node.{QueueNode, mark_in_flight}
use distributed_sync_system.Queue.Redeliver.{failing, again}

-- `checking` is a message's turn in `_check_and_redeliver`. That the loop goes from one message to the
-- next is left open: a turn may begin at any time.
pub data Task (J : Type 0) : Type 0 where
  storing_save storing_push storing_expire : Message J → Task J
  consuming_pop : (queue : String) (ack_timeout : ℕ) → Task J
  consuming_read : (queue msg_id : String) (ack_timeout : ℕ) → Task J
  consuming_save : (queue msg_id : String) (deadline : ℕ) → Message J → Task J
  consuming_add : (queue msg_id : String) (deadline : ℕ) → Task J
  acknowledging_mark acknowledging_remove : (queue msg_id : String) → Task J
  checking : (key queue msg_id : String) → Task J
  failing_save failing_remove : (key queue msg_id : String) → Message J → Task J
  again_save : (key queue msg_id : String) → Message J → Task J
  again_remove : (key queue msg_id : String) → Task J
  again_push : (queue msg_id : String) → Task J

-- The node and its store, with the tasks that are under way, each in a place of its own.
pub record Pool (S J : Type 0) : Type 0 where
  pub node : QueueNode S
  pub tasks : ℕ → Option (Task J)

-- A task begins in a free place, does its next command, or is cancelled at an await.
pub data TaskEvent (J : Type 0) : Type 0 where
  begun : ℕ → Task J → TaskEvent J
  advanced : (place now later : ℕ) → TaskEvent J
  cut : ℕ → TaskEvent J

unfoldable pub put_task :
    {J : Type 0} → ℕ → Option (Task J) → (ℕ → Option (Task J)) → ℕ → Option (Task J)
put_task k t tasks j = if j == k then t else tasks j

module _ {J : Type 0} (codec : Codec J) (db : Redis) (max_retries : ℕ) where
  -- The message of a hash, where the call goes on with one: it ends where the hash is gone, and where
  -- it cannot be read.
  unfoldable pub found_message : Dict String → Option (Message J)
  found_message [] = none
  found_message (field ∷ fields) = elim (from_dict (unflatten codec (field ∷ fields))) [
    | raised e ↦ none
    | returned msg ↦ some msg
  ]

  -- What the check goes on with, from the retry count: too many, one more, or an exception.
  unfoldable pub check_found : String → String → String → Message J → Option (Task J)
  unfolding failing again
  check_found key queue msg_id msg = elim (at_least max_retries msg.retry_count) [
    | raised e ↦ none
    | returned true ↦ some (failing_save key queue msg_id (failing msg))
    | returned false ↦ some (again_save key queue msg_id (again msg))
  ]

  unfoldable save : String → String → Message J → QueueNode db.Store → QueueNode db.Store
  save queue msg_id msg n = record n {
    redis = db.hset (msg_key queue msg_id) (flatten codec (to_dict msg)) n.redis;
  }

  -- `now` and `later` are the two clock readings of consume.
  unfoldable pub advance :
      ℕ → ℕ → Task J → QueueNode db.Store → QueueNode db.Store × Option (Task J)
  unfolding found_message check_found save mark_in_flight
  advance now later (storing_save msg) n =
      (save (str_of codec msg.queue) (str_of codec msg.message_id) msg n, some (storing_push msg))
  advance now later (storing_push msg) n =
      let key = pending_key (str_of codec msg.queue) in
      (
        record n { redis = db.lpush key (str_of codec msg.message_id) n.redis },
        some (storing_expire msg),
      )
  advance now later (storing_expire msg) n =
      let key = msg_key (str_of codec msg.queue) (str_of codec msg.message_id) in
      (record n { redis = db.expire key 86400 n.redis }, none)
  advance now later (consuming_pop queue ack_timeout) n =
      let (redis, popped) = db.rpop (pending_key queue) n.redis in
      (
        record n { redis = redis },
        elim popped [
          | none ↦ none
          | some msg_id ↦
              ite (str_dec msg_id "") none (some (consuming_read queue msg_id ack_timeout))
        ],
      )
  advance now later (consuming_read queue msg_id ack_timeout) n = (
    n,
    elim (found_message (db.hgetall (msg_key queue msg_id) n.redis)) [
      | none ↦ none
      | some msg ↦
          let deadline = later + ack_timeout in
          some (consuming_save queue msg_id deadline (mark_in_flight now deadline msg))
    ],
  )
  advance now later (consuming_save queue msg_id deadline msg) n =
      (save queue msg_id msg n, some (consuming_add queue msg_id deadline))
  advance now later (consuming_add queue msg_id deadline) n = (
    record n {
      redis = db.zadd (in_flight_key queue) msg_id deadline n.redis;
      metrics = decrement_gauge "queue_depth" (count_up "messages_consumed_total" 1 n.metrics);
    },
    none,
  )
  advance now later (acknowledging_mark queue msg_id) n =
      let fields = ("status", value_of completed) ∷ [] in
      (
        record n { redis = db.hset (msg_key queue msg_id) fields n.redis },
        some (acknowledging_remove queue msg_id),
      )
  advance now later (acknowledging_remove queue msg_id) n =
      (record n { redis = db.zrem (in_flight_key queue) msg_id n.redis }, none)
  advance now later (checking key queue msg_id) n = (
    n,
    elim (found_message (db.hgetall (msg_key queue msg_id) n.redis)) [
      | none ↦ none
      | some msg ↦ check_found key queue msg_id msg
    ],
  )
  advance now later (failing_save key queue msg_id msg) n =
      (save queue msg_id msg n, some (failing_remove key queue msg_id msg))
  advance now later (failing_remove key queue msg_id msg) n =
      (record n { redis = db.zrem key msg_id n.redis }, none)
  advance now later (again_save key queue msg_id msg) n =
      (save queue msg_id msg n, some (again_remove key queue msg_id))
  advance now later (again_remove key queue msg_id) n =
      (record n { redis = db.zrem key msg_id n.redis }, some (again_push queue msg_id))
  advance now later (again_push queue msg_id) n = (
    record n {
      redis = db.lpush (pending_key queue) msg_id n.redis;
      metrics = count_up "messages_redelivered_total" 1 n.metrics;
    },
    none,
  )

  unfoldable pub pool_step : TaskEvent J → Pool db.Store J → Pool db.Store J
  unfolding advance put_task
  pool_step (begun k t) p = elim (p.tasks k) [
    | none ↦ record p { tasks = put_task k (some t) p.tasks }
    | some _ ↦ p
  ]
  pool_step (advanced k now later) p = elim (p.tasks k) [
    | none ↦ p
    | some t ↦
        let (n, next) = advance now later t p.node in
        record { node = n; tasks = put_task k next p.tasks }
  ]
  pool_step (cut k) p = record p { tasks = put_task k none p.tasks }

  unfoldable pub run_pool : List (TaskEvent J) → Pool db.Store J → Pool db.Store J
  unfolding pool_step
  run_pool [] p = p
  run_pool (e ∷ es) p = run_pool es (pool_step e p)

  -- A call whose awaits no other task uses: at most `fuel` commands.
  unfoldable pub alone : ℕ → ℕ → ℕ → Option (Task J) → QueueNode db.Store → QueueNode db.Store
  unfolding advance
  alone now later fuel none n = n
  alone now later zero (some t) n = n
  alone now later (suc fuel) (some t) n =
      let (n', next) = advance now later t n in alone now later fuel next n'
