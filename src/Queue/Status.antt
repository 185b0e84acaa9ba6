-- ===== src/Queue/Status.antt =====
-- `get_status` of src/nodes/queue_node.py, with the length of the ring.
use distributed_sync_system.Base.{
  ℕ, List, [], ◌∷◌, String, Dict, Outcome, returned, raised, length, add, insert,
}
use distributed_sync_system.Metrics.{counter}
use distributed_sync_system.Ring.Hashing.{ConsistentHashRing}
use distributed_sync_system.Queue.Keys.{queue_of, in_flight_key}
use distributed_sync_system.Queue.Store.{Redis}
use distributed_sync_system.Queue.Node.{QueueNode, QueueCounts}

pub record QueueStatus : Type 0 where
  pub node : String
  pub ring_nodes : ℕ
  pub queues : Dict QueueCounts
  pub produced : ℕ
  pub consumed : ℕ
  pub redelivered : ℕ

-- `set(self._map.values())`
unfoldable pub nodes_of : List (ℕ × String) → List String
nodes_of [] = []
nodes_of ((h, node) ∷ m) = add node (nodes_of m)

-- `len(ring)`
unfoldable pub ring_length : ConsistentHashRing → ℕ
unfolding nodes_of
ring_length r = length (nodes_of r.map)

module _ (db : Redis) where
  -- The loop over the keys: of two keys for the same name, the later one stands.
  unfoldable pub count_queues :
      List String → db.Store → Dict QueueCounts → Outcome (Dict QueueCounts)
  unfolding queue_of
  count_queues [] s queues = returned queues
  count_queues (key ∷ keys) s queues = elim (queue_of key) [
    | raised e ↦ raised e
    | returned queue ↦ count_queues keys s (
        insert queue
          (record { pending = db.llen key s; in_flight = db.zcard (in_flight_key queue) s }) queues)
  ]

  -- The counters are created where they are missing.
  unfoldable pub get_status : QueueNode db.Store → QueueNode db.Store × Outcome QueueStatus
  unfolding ring_length count_queues counter
  get_status n =
      let (m1, produced) = counter "messages_produced_total" "" n.metrics in
      let (m2, consumed) = counter "messages_consumed_total" "" m1 in
      let (m3, redelivered) = counter "messages_redelivered_total" "" m2 in
      elim (count_queues (db.keys_pending n.redis) n.redis []) [
        | raised e ↦ (n, raised e)
        | returned queues ↦ (
          record n { metrics = m3 },
          returned (record {
            node = n.node_id;
            ring_nodes = ring_length n.ring;
            queues = queues;
            produced = produced.value;
            consumed = consumed.value;
            redelivered = redelivered.value;
          }),
        )
      ]
