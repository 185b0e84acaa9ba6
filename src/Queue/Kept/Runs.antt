-- ===== src/Queue/Kept/Runs.antt =====
-- Runs of the queue of src/nodes/queue_node.py: any order of whole calls and rounds of its redelivery, each
-- without another task between its awaits (those are in Queue/Tasks). An entry of the store that expires
-- is not a queue_step.

use distributed_sync_system.Base.{ℕ, ◌≡◌, ◌≢◌, ◌⊎◌, false, List, [], ◌∷◌, String, All}
use distributed_sync_system.Queue.Keys.{msg_key, has_colon}
use distributed_sync_system.Queue.Store.{Redis}
use distributed_sync_system.Queue.Message.{Codec, Message, str_of}
use distributed_sync_system.Queue.Node.{QueueNode, store_message, consume, acknowledge}
use distributed_sync_system.Queue.Redeliver.{check_and_redeliver}
use distributed_sync_system.Queue.Stored.{AllStorable}
use distributed_sync_system.Queue.Kept.{Kept, Tries}
use distributed_sync_system.Queue.Kept.Handlers.{
  store_message_new, store_message-Kept, acknowledge-Kept, consume-Kept,
}
use distributed_sync_system.Queue.Kept.Redelivery.{redeliver_keys-Kept}

pub data QueueEvent (J : Type 0) : Type 0 where
  stored : Message J → QueueEvent J
  consumed : (queue : String) (ack_timeout now later : ℕ) → QueueEvent J
  acknowledged : (queue message_id : String) → QueueEvent J
  checked : (now : ℕ) → QueueEvent J

module _ {J : Type 0} (codec : Codec J) (db : Redis) (max_retries : ℕ) where
  unfoldable pub queue_step : QueueEvent J → QueueNode db.Store → QueueNode db.Store
  queue_step (stored m) n = store_message codec db m n
  queue_step (consumed queue ack_timeout now later) n =
      (consume codec db queue ack_timeout now later n).0
  queue_step (acknowledged queue message_id) n = acknowledge db queue message_id n
  queue_step (checked now) n = (check_and_redeliver codec db max_retries now n).0

  unfoldable pub run : List (QueueEvent J) → QueueNode db.Store → QueueNode db.Store
  unfolding queue_step
  run [] n = n
  run (e ∷ es) n = run es (queue_step e n)

  module _ (q i : String) where
    -- An event that does not acknowledge `i` of `q`, on queues whose names have no colon, with messages
    -- that can be stored and counts within the limit.
    abbrev pub Ordinary : QueueEvent J → Type 0
    Ordinary (stored m) =
        AllStorable codec m
        × Tries codec db max_retries q i m
        × (has_colon (str_of codec m.queue) ≡ false)
    Ordinary (consumed r _ _ _) = has_colon r ≡ false
    Ordinary (acknowledged r j) = (has_colon r ≡ false) × ((q ≢ r) ⊎ (i ≢ j))
    Ordinary (checked now) = Unit {0}

    module _ (plain : has_colon q ≡ false) (named : i ≢ "") where
      queue_step-Kept :
          (e : QueueEvent J) (n : QueueNode db.Store)
          → Ordinary e
          → Kept codec db max_retries q i n.redis
          → Kept codec db max_retries q i (queue_step e n).redis
      unfolding queue_step check_and_redeliver
      queue_step-Kept (stored m) n (a, t, h) k =
          store_message-Kept codec db max_retries q i plain m n a t h k
      queue_step-Kept (consumed r ack_timeout now later) n h k =
          consume-Kept codec db max_retries q i plain r ack_timeout now later n h named k
      queue_step-Kept (acknowledged r j) n (h, other) k =
          acknowledge-Kept codec db max_retries q i plain r j n h other k
      queue_step-Kept (checked now) n h k =
          redeliver_keys-Kept codec db max_retries q i plain now (db.keys_in_flight n.redis) n k

      run_keeps :
          (es : List (QueueEvent J)) (n : QueueNode db.Store)
          → All Ordinary es
          → Kept codec db max_retries q i n.redis
          → Kept codec db max_retries q i (run es n).redis
      unfolding run
      run_keeps [] n all k = k
      run_keeps (e ∷ es) n all k = run_keeps es (queue_step e n) all.1 (queue_step-Kept e n all.0 k)

      -- A message that is stored under an id that is not in use is not lost by any whole calls that do not
      -- acknowledge it: the node reads a message of that id whose fields can all be stored, and it is
      -- on its queue's list or in flight, or it was given up as failed with a count of at least
      -- max_retries. The queues' names have no colon, its id is not empty, the messages that the
      -- events store have values that the store gives back and counts of at most max_retries.
      pub run-Kept :
          (m : Message J) (es : List (QueueEvent J)) (n : QueueNode db.Store)
          → str_of codec m.queue ≡ q
          → str_of codec m.message_id ≡ i
          → AllStorable codec m
          → Tries codec db max_retries q i m
          → db.hgetall (msg_key q i) n.redis ≡ []
          → All Ordinary es
          → Kept codec db max_retries q i (run es (store_message codec db m n)).redis
      run-Kept m es n eq ei a t new all =
          run_keeps es (store_message codec db m n) all
            (store_message_new codec db max_retries q i plain m n eq ei a t new)
