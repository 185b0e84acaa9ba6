-- ===== src/Queue/Redeliver.antt =====
-- The redelivery of src/nodes/queue_node.py (_check_and_redeliver and its loop) and get_status.
use distributed_sync_system.Base.{ℕ, true, false, List, [], ◌∷◌, String, Outcome, returned, raised}
use distributed_sync_system.Metrics.{count_up}
use distributed_sync_system.Queue.Keys.{msg_key, pending_key, queue_of}
use distributed_sync_system.Queue.Store.{Redis}
use distributed_sync_system.Queue.Message.{
  pending, failed, value_of, str, Codec, Message, to_dict, from_dict, at_least, plus_one, flatten,
  unflatten,
}
use distributed_sync_system.Queue.Node.{QueueNode}

module _ {J : Type 0} where
  unfoldable pub failing : Message J → Message J
  failing msg = record msg { status = str (value_of failed) }

  unfoldable pub again : Message J → Message J
  again msg = record msg { status = str (value_of pending); retry_count = plus_one msg.retry_count }

module _ {J : Type 0} (codec : Codec J) (db : Redis) (max_retries : ℕ) where
  unfoldable pub fail_message :
      String → String → String → Message J → QueueNode db.Store → QueueNode db.Store
  unfolding failing
  fail_message key queue msg_id msg n =
      let saved = db.hset (msg_key queue msg_id) (flatten codec (to_dict (failing msg))) n.redis in
      record n { redis = db.zrem key msg_id saved }

  unfoldable pub requeue_message :
      String → String → String → Message J → QueueNode db.Store → QueueNode db.Store
  unfolding again
  requeue_message key queue msg_id msg n =
      let saved = db.hset (msg_key queue msg_id) (flatten codec (to_dict (again msg))) n.redis in
      record n {
        redis = db.lpush (pending_key queue) msg_id (db.zrem key msg_id saved);
        metrics = count_up "messages_redelivered_total" 1 n.metrics;
      }

  -- The body of the inner loop, without another task between its awaits; Queue/Tasks has its commands one
  -- by one.
  unfoldable pub redeliver_message :
      String → String → String → QueueNode db.Store → QueueNode db.Store × Outcome (Unit {0})
  unfolding fail_message requeue_message
  redeliver_message key queue msg_id n = elim (db.hgetall (msg_key queue msg_id) n.redis) [
    | [] ↦ (n, returned tt)
    | field ∷ fields ↦ elim (from_dict (unflatten codec (field ∷ fields))) [
      | raised e ↦ (n, raised e)
      | returned msg ↦ elim (at_least max_retries msg.retry_count) [
        | raised e ↦ (n, raised e)
        | returned true ↦ (fail_message key queue msg_id msg n, returned tt)
        | returned false ↦ (requeue_message key queue msg_id msg n, returned tt)
      ]
    ]
  ]

  unfoldable pub redeliver_ids :
      String → String → List String → QueueNode db.Store → QueueNode db.Store × Outcome (Unit {0})
  unfolding redeliver_message
  redeliver_ids key queue [] n = (n, returned tt)
  redeliver_ids key queue (msg_id ∷ ids) n =
      let (n', ended) = redeliver_message key queue msg_id n in
      let rest = redeliver_ids key queue ids n' in
      elim ended [ raised e ↦ (n', raised e) | returned _ ↦ rest ]

  -- The body of the outer loop.
  unfoldable pub redeliver_key :
      ℕ → String → QueueNode db.Store → QueueNode db.Store × Outcome (Unit {0})
  unfolding redeliver_ids
  redeliver_key now key n = elim (queue_of key) [
    | raised e ↦ (n, raised e)
    | returned queue ↦ redeliver_ids key queue (db.zrangebyscore key now n.redis) n
  ]

  unfoldable pub redeliver_keys :
      ℕ → List String → QueueNode db.Store → QueueNode db.Store × Outcome (Unit {0})
  unfolding redeliver_key
  redeliver_keys now [] n = (n, returned tt)
  redeliver_keys now (key ∷ keys) n =
      let (n', ended) = redeliver_key now key n in
      let rest = redeliver_keys now keys n' in
      elim ended [ raised e ↦ (n', raised e) | returned _ ↦ rest ]

  unfoldable pub check_and_redeliver :
      ℕ → QueueNode db.Store → QueueNode db.Store × Outcome (Unit {0})
  unfolding redeliver_keys
  check_and_redeliver now n = redeliver_keys now (db.keys_in_flight n.redis) n

  -- The rounds of the loop up to its cancellation, each with its clock reading: an exception ends it.
  unfoldable pub redelivery_loop :
      List ℕ → QueueNode db.Store → QueueNode db.Store × Outcome (Unit {0})
  unfolding check_and_redeliver
  redelivery_loop [] n = (n, returned tt)
  redelivery_loop (now ∷ later) n =
      let (n', ended) = check_and_redeliver now n in
      let rest = redelivery_loop later n' in
      elim ended [ raised e ↦ (n', raised e) | returned _ ↦ rest ]
