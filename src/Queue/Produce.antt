-- ===== src/Queue/Produce.antt =====
-- A message that is produced on one node of src/nodes/queue_node.py and stored by another: the nodes
-- share one store, and the request is the JSON of the message.
use Prim.Native.String.{◌++◌}
use distributed_sync_system.Base.{
  ◌∙◌, ap, ap₂, none, some, [], ℕ, ◌≡◌, ◌⊎◌, inl, inr, refl, ap, ◌∙◌, true, false, Option, none,
  some, [], String, str_dec, Outcome, returned, Option-cases, Bool-cases, contains, lookup,
}
use distributed_sync_system.Ring.Hashing.{get_node}
use distributed_sync_system.Queue.Keys.{msg_key, has_colon}
use distributed_sync_system.Queue.Store.{Redis}
use distributed_sync_system.Queue.Message.{
  Value, Codec, Message, to_dict, from_dict, all_known, with_required, or_else, str_of,
}
use distributed_sync_system.Queue.Node.{
  QueueNode, Forward, first_with, node_id_to_url, is_own, count_produced, store_message,
  queue_store_internal, dispatch, produce_message,
}
use distributed_sync_system.Queue.Stored.{AllStorable}
use distributed_sync_system.Queue.Kept.{Kept, Tries}
use distributed_sync_system.Queue.Kept.Handlers.{store_message_new, store_message-Kept}

-- What becomes of a request: it is answered, or its answer is lost, or it does not arrive.
pub data Transfer : Type 0 where
  answered answer_lost dropped : Transfer

module _ {J : Type 0} (codec : Codec J) (db : Redis) (position : String → ℕ) where
  -- The other node stores what the request holds, where there is one and it arrives.
  unfoldable pub arrive : Transfer → Option (Forward J) → QueueNode db.Store → QueueNode db.Store
  arrive dropped f n = n
  arrive _ none n = n
  arrive _ (some f) n = (queue_store_internal codec db f.message n).0

  abbrev pub answer_of : Transfer → Option (Unit {0})
  answer_of answered = some tt
  answer_of _ = none

  -- `produce` and what the other node does in its course. Up to the answer `produce` changes nothing.
  unfoldable pub produce_among :
      Transfer → Message J → QueueNode db.Store → QueueNode db.Store × Outcome (Value J)
  produce_among transfer msg n =
      let forward = (produce_message codec db position msg (answer_of transfer) n).1 in
      let there = arrive transfer forward n in
      let (n', _, ended) = produce_message codec db position msg (answer_of transfer) there in
      (n', ended)

module _ {J : Type 0} (codec : Codec J) where
  from_dict-to_dict : (m : Message J) → from_dict (to_dict m) ≡ returned m
  unfolding from_dict to_dict with_required all_known or_else contains str_dec lookup
  from_dict-to_dict m = refl

module _ {J : Type 0} (codec : Codec J) (db : Redis) (max_retries : ℕ) (q i : String)
    (plain : has_colon q ≡ false) (m : Message J) (eq : str_of codec m.queue ≡ q)
    (ei : str_of codec m.message_id ≡ i) (a : AllStorable codec m)
    (t : Tries codec db max_retries q i m) where
  abbrev K : QueueNode db.Store → Type 0
  K n = Kept codec db max_retries q i n.redis

  -- Stored by the other node, or not.
  abbrev Arrived : QueueNode db.Store → Type 0
  Arrived n = (db.hgetall (msg_key q i) n.redis ≡ []) ⊎ K n

  store_either : (n : QueueNode db.Store) → Arrived n → K (store_message codec db m n)
  store_either n (inl new) = store_message_new codec db max_retries q i plain m n eq ei a t new
  store_either n (inr k) =
      store_message-Kept codec db max_retries q i plain m n a t (ap has_colon eq ∙ plain) k

  url_some :
      (node : String) (n : QueueNode db.Store)
      → (url : String) × (node_id_to_url codec db (some node) n ≡ returned url)
  unfolding node_id_to_url
  url_some node n = elim (Option-cases (first_with node n.peers)) [
    | inl e ↦
        ("http://" ++ (node ++ (":" ++ codec.str_integer n.node_port)), rw (e, node_id_to_url) refl)
    | inr (p, e) ↦ (p, rw (e, node_id_to_url) refl)
  ]

  dispatch_own :
      (node : String) (answer : Option (Unit {0})) (n : QueueNode db.Store)
      → is_own codec db (some node) n ≡ true
      → dispatch codec db (some node) m answer n
        ≡ (count_produced codec db (store_message codec db m n), none, returned m.message_id)
  unfolding dispatch
  dispatch_own node answer n own = rw (own, dispatch) refl

  dispatch_other :
      (node url : String) (answer : Option (Unit {0})) (n : QueueNode db.Store)
      → is_own codec db (some node) n ≡ false
      → node_id_to_url codec db (some node) n ≡ returned url
      → dispatch codec db (some node) m answer n ≡ (
        count_produced codec db (elim answer [ none ↦ store_message codec db m n | some _ ↦ n ]),
        some (record { url = url; message = to_dict m }),
        returned m.message_id,
      )
  unfolding dispatch
  dispatch_other node url answer n other e = rw (other, dispatch) (rw (e, dispatch) refl)

  stored_there :
      (n : QueueNode db.Store)
      → (queue_store_internal codec db (to_dict m) n).0 ≡ store_message codec db m n
  unfolding queue_store_internal
  stored_there n = rw (from_dict-to_dict codec m, queue_store_internal) refl

  module _ (position : String → ℕ) (node : String) (n : QueueNode db.Store)
      (routed : get_node (λ _ _. 0) position i n.ring ≡ returned (some node)) where
    produce_routed :
        (answer : Option (Unit {0})) (n' : QueueNode db.Store)
        → n'.ring ≡ n.ring
        → produce_message codec db position m answer n' ≡ dispatch codec db (some node) m answer n'
    unfolding produce_message
    produce_routed answer n' same =
        let here : get_node (λ _ _. 0) position (str_of codec m.message_id) n'.ring
            ≡ returned (some node) =
          ap₂ (λ x y. get_node (λ _ _. 0) position x y) ei same ∙ routed in
        rw (here, produce_message) refl

    -- What `produce` returns and leaves, once it is known what the other node did.
    Done : QueueNode db.Store × Outcome (Value J) → Type 0
    Done p = (p.1 ≡ returned m.message_id) × K p.0

    own-Done :
        (transfer : Transfer)
        → db.hgetall (msg_key q i) n.redis ≡ []
        → is_own codec db (some node) n ≡ true
        → Done (produce_among codec db position transfer m n)
    unfolding Done produce_among arrive count_produced
    own-Done transfer new own =
        let here : (answer : Option (Unit {0}))
            → produce_message codec db position m answer n ≡ (
              count_produced codec db (store_message codec db m n),
              none,
              returned m.message_id,
            ) =
          λ answer. produce_routed answer n refl ∙ dispatch_own node answer n own in
        let done : Done
            (count_produced codec db (store_message codec db m n), returned m.message_id) =
          (refl, store_either n (inl new)) in
        elim transfer as (λ x. Done (produce_among codec db position x m n)) [
          | answered ↦ rw (here (some tt)) (rw (here (some tt)) done)
          | answer_lost ↦ rw (here none) (rw (here none) done)
          | dropped ↦ rw (here none) done
        ]

    -- What `produce` does where another node is to store the message, which may have done so.
    dispatched :
        (n' : QueueNode db.Store) (answer : Option (Unit {0}))
        → n'.ring ≡ n.ring
        → is_own codec db (some node) n' ≡ false
        → (url : String) × (produce_message codec db position m answer n' ≡ (
          count_produced codec db
              (elim answer [ none ↦ store_message codec db m n' | some _ ↦ n' ]),
          some (record { url = url; message = to_dict m }),
          returned m.message_id,
        ))
    dispatched n' answer same other =
        let (url, e) = url_some node n' in
        (url, produce_routed answer n' same ∙ dispatch_other node url answer n' other e)

    ring_there : (store_message codec db m n).ring ≡ n.ring
    unfolding store_message
    ring_there = refl

    other_there :
        is_own codec db (some node) n ≡ false
        → is_own codec db (some node) (store_message codec db m n) ≡ false
    unfolding store_message is_own
    other_there other = other

    other-Done :
        (transfer : Transfer)
        → db.hgetall (msg_key q i) n.redis ≡ []
        → is_own codec db (some node) n ≡ false
        → Done (produce_among codec db position transfer m n)
    unfolding Done produce_among arrive count_produced
    other-Done transfer new other =
        let there = store_message codec db m n in
        let k = store_either n (inl new) in
        let here = λ (answer : Option (Unit {0})). (dispatched n answer refl other).1 in
        let then = λ (answer : Option (Unit {0})).
          (dispatched there answer ring_there (other_there other)).1 in
        elim transfer as (λ x. Done (produce_among codec db position x m n)) [
          | answered ↦ rw (here (some tt)) (rw (stored_there n) (rw (then (some tt)) (refl, k)))
          | answer_lost ↦
              rw (here none)
                (rw (stored_there n) (rw (then none) (refl, store_either there (inr k))))
          | dropped ↦ rw (here none) (refl, k)
        ]

    -- Whatever becomes of a request to the node that the ring has for the message, `produce` returns its
    -- id, and in the store that the nodes share the message is not lost: a node reads one of that id,
    -- and it is on its queue's list or in flight or was given up. The id is not in use, the queue's
    -- name has no colon, and the message has values that can be stored and a count of at most
    -- max_retries.
    pub produce_among-Kept :
        (transfer : Transfer)
        → db.hgetall (msg_key q i) n.redis ≡ []
        → let p = produce_among codec db position transfer m n in
          (p.1 ≡ returned m.message_id) × Kept codec db max_retries q i p.0.redis
    unfolding Done
    produce_among-Kept transfer new = elim (Bool-cases (is_own codec db (some node) n)) [
      | inl own ↦ own-Done transfer new own
      | inr other ↦ other-Done transfer new other
    ]
