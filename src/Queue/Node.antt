-- ===== src/Queue/Node.antt =====
-- `QueueNode` of src/nodes/queue_node.py: its start, the producer's and the consumer's calls, and
-- `queue_store_internal` of main.py. The store does not fail. A handler gets its clock readings, the
-- new id and the answer of the node it forwards to as arguments.
use Prim.Native.String.{◌++◌}
use text.Mathlib.Text.{find?}
use distributed_sync_system.Base.{
  ℕ, ◌+◌, Bool, true, false, Option, none, some, List, [], ◌∷◌, map, String, Dict, Outcome,
  returned, raised, type_error, ite, str_dec,
}
use distributed_sync_system.Metrics.{Registry, count_up, increment_gauge, decrement_gauge}
use distributed_sync_system.Ring.Hashing.{ConsistentHashRing, add_node, get_node}
use distributed_sync_system.Queue.Keys.{msg_key, pending_key, in_flight_key, url_to_id}
use distributed_sync_system.Queue.Store.{Redis}
use distributed_sync_system.Queue.Message.{
  pending, in_flight, completed, value_of, Value, str, integer, real, Codec, Message, to_dict,
  from_dict, str_of, flatten, unflatten,
}

pub record QueueNode (S : Type 0) : Type 0 where
  pub node_id : String
  pub node_port : ℕ
  pub peers : List String
  pub ring : ConsistentHashRing
  pub all_nodes : List String
  pub redis : S
  pub metrics : Registry

pub data ConsumeReply (J : Type 0) : Type 0 where
  empty : (queue : String) → ConsumeReply J
  delivered : Message J → ConsumeReply J

-- A request to another node: its URL, and the message.
pub record Forward (J : Type 0) : Type 0 where
  pub url : String
  pub message : Dict (Value J)

pub record QueueCounts : Type 0 where
  pub pending : ℕ
  pub in_flight : ℕ

-- `node_id in peer`
unfoldable pub is_in : String → String → Bool
is_in node_id peer = elim (find? peer node_id) [ none ↦ false | some _ ↦ true ]

unfoldable pub first_with : String → List String → Option String
first_with node_id [] = none
first_with node_id (peer ∷ peers) =
    let rest = first_with node_id peers in
    elim (is_in node_id peer) [ true ↦ some peer | false ↦ rest ]

module _ (point : String → ℕ → ℕ) where
  unfoldable pub add_nodes : List String → ConsistentHashRing → ConsistentHashRing
  add_nodes [] r = r
  add_nodes (node ∷ nodes) r = add_nodes nodes (add_node point (λ _. 0) node r)

  unfoldable pub init : {S : Type 0} → String → ℕ → List String → ℕ → S → Registry → QueueNode S
  init node_id node_port peers virtual_nodes redis metrics = record {
    node_id = node_id;
    node_port = node_port;
    peers = peers;
    ring = record { virtual_nodes = virtual_nodes; ring = []; map = [] };
    all_nodes = node_id ∷ map url_to_id peers;
    redis = redis;
    metrics = metrics;
  }

  unfoldable pub on_start : {S : Type 0} → QueueNode S → QueueNode S
  unfolding add_nodes
  on_start n = record n { ring = add_nodes n.all_nodes n.ring }

module _ {J : Type 0} where
  unfoldable pub new_message : String → String → Value J → String → ℕ → Message J
  new_message message_id queue payload producer_id now = record {
    message_id = str message_id;
    queue = str queue;
    payload = payload;
    producer_id = str producer_id;
    status = str (value_of pending);
    created_at = real now;
    delivered_at = real 0;
    retry_count = integer 0;
    ack_deadline = real 0;
  }

  -- What a consumer gets: the message as it is marked.
  unfoldable pub mark_in_flight : ℕ → ℕ → Message J → Message J
  mark_in_flight now deadline msg = record msg {
    status = str (value_of in_flight);
    delivered_at = real now;
    ack_deadline = real deadline;
  }

module _ {J : Type 0} (codec : Codec J) (db : Redis) where
  -- A target of None has no `in`, but the loop may be empty.
  unfoldable pub node_id_to_url : Option String → QueueNode db.Store → Outcome String
  node_id_to_url (some node_id) n = elim (first_with node_id n.peers) [
    | some peer ↦ returned peer
    | none ↦ returned ("http://" ++ (node_id ++ (":" ++ codec.str_integer n.node_port)))
  ]
  node_id_to_url none n = elim n.peers [
    | [] ↦ returned ("http://None:" ++ codec.str_integer n.node_port)
    | _ ∷ _ ↦ raised type_error
  ]

  unfoldable pub store_message : Message J → QueueNode db.Store → QueueNode db.Store
  store_message msg n =
      let queue = str_of codec msg.queue in
      let key = msg_key queue (str_of codec msg.message_id) in
      let saved = db.hset key (flatten codec (to_dict msg)) n.redis in
      let pushed = db.lpush (pending_key queue) (str_of codec msg.message_id) saved in
      record n { redis = db.expire key 86400 pushed }

  unfoldable pub queue_store_internal :
      Dict (Value J) → QueueNode db.Store → QueueNode db.Store × Outcome (Unit {0})
  unfolding store_message
  queue_store_internal d n = elim (from_dict d) [
    | raised e ↦ (n, raised e)
    | returned msg ↦ (store_message msg n, returned tt)
  ]

  -- The end of `produce`.
  unfoldable pub count_produced : QueueNode db.Store → QueueNode db.Store
  count_produced n = record n {
    metrics = increment_gauge "queue_depth" (count_up "messages_produced_total" 1 n.metrics);
  }

  unfoldable pub is_own : Option String → QueueNode db.Store → Bool
  is_own none n = false
  is_own (some t) n = ite (str_dec t n.node_id) true false

  -- `produce` from the target on. The answer of the node that it forwards to is `none` on a failure.
  unfoldable pub dispatch :
      Option String
      → Message J
      → Option (Unit {0})
      → QueueNode db.Store
      → QueueNode db.Store × Option (Forward J) × Outcome (Value J)
  unfolding store_message count_produced node_id_to_url is_own
  dispatch target msg answer n = elim (is_own target n) [
    | true ↦ (count_produced (store_message msg n), none, returned msg.message_id)
    | false ↦ elim (node_id_to_url target n) [
      | raised e ↦ (n, none, raised e)
      | returned url ↦ (
        count_produced (elim answer [ none ↦ store_message msg n | some _ ↦ n ]),
        some (record { url = url; message = to_dict msg }),
        returned msg.message_id,
      )
    ]
  ]

  unfoldable pub produce_message :
      (String → ℕ)
      → Message J
      → Option (Unit {0})
      → QueueNode db.Store
      → QueueNode db.Store × Option (Forward J) × Outcome (Value J)
  unfolding dispatch
  produce_message position msg answer n =
      elim (get_node (λ _ _. 0) position (str_of codec msg.message_id) n.ring) [
        | raised e ↦ (n, none, raised e)
        | returned target ↦ dispatch target msg answer n
      ]

  unfoldable pub produce :
      (String → ℕ)
      → String
      → String
      → Value J
      → String
      → ℕ
      → Option (Unit {0})
      → QueueNode db.Store
      → QueueNode db.Store × Option (Forward J) × Outcome (Value J)
  unfolding produce_message new_message
  produce position message_id queue payload producer_id now answer n =
      produce_message position (new_message message_id queue payload producer_id now) answer n

  unfoldable pub deliver :
      String → String → ℕ → ℕ → Message J → QueueNode db.Store → QueueNode db.Store
  unfolding mark_in_flight
  deliver queue msg_id now deadline msg n =
      let saved =
        db.hset (msg_key queue msg_id) (flatten codec (to_dict (mark_in_flight now deadline msg)))
          n.redis in
      record n {
        redis = db.zadd (in_flight_key queue) msg_id deadline saved;
        metrics = decrement_gauge "queue_depth" (count_up "messages_consumed_total" 1 n.metrics);
      }

  -- From the point where the id is off the list.
  unfoldable pub consume_found :
      String → String → ℕ → ℕ → QueueNode db.Store → QueueNode db.Store × Outcome (ConsumeReply J)
  unfolding deliver mark_in_flight
  consume_found queue msg_id now deadline n = elim (db.hgetall (msg_key queue msg_id) n.redis) [
    | [] ↦ (n, returned (empty queue))
    | field ∷ fields ↦ elim (from_dict (unflatten codec (field ∷ fields))) [
      | raised e ↦ (n, raised e)
      | returned msg ↦ (
        deliver queue msg_id now deadline msg n,
        returned (delivered (mark_in_flight now deadline msg)),
      )
    ]
  ]

  -- `now` is the first clock reading, `later` the second. This is the call without another task between its
  -- awaits; Queue/Tasks has its commands one by one (Queue/Tasks/Alone joins the two).
  unfoldable pub consume :
      String → ℕ → ℕ → ℕ → QueueNode db.Store → QueueNode db.Store × Outcome (ConsumeReply J)
  unfolding consume_found
  consume queue ack_timeout now later n =
      let (redis, popped) = db.rpop (pending_key queue) n.redis in
      let n' : QueueNode db.Store = record n { redis = redis } in
      elim popped [
        | none ↦ (n', returned (empty queue))
        | some msg_id ↦
            ite (str_dec msg_id "") (n', returned (empty queue))
              (consume_found queue msg_id now (later + ack_timeout) n')
      ]

module _ (db : Redis) where
  unfoldable pub acknowledge : String → String → QueueNode db.Store → QueueNode db.Store
  acknowledge queue message_id n =
      let key = msg_key queue message_id in
      let marked = db.hset key (("status", value_of completed) ∷ []) n.redis in
      record n { redis = db.zrem (in_flight_key queue) message_id marked }
