-- ===== src/Queue/Reads.antt =====
-- What the calls and the redelivery of src/nodes/queue_node.py do with a message that they read.
use distributed_sync_system.Base.{
  ℕ, ◌+◌, ◌≡◌, ◌≢◌, inl, inr, refl, sym, true, false, some, [], ◌∷◌, String, str_dec, if_neg,
  lookup, returned, raised, List-cases,
}
use distributed_sync_system.Queue.Keys.{msg_key, pending_key}
use distributed_sync_system.Queue.Store.{Redis}
use distributed_sync_system.Queue.Message.{
  Codec, Message, from_dict, with_required, all_known, at_least, unflatten,
}
use distributed_sync_system.Queue.Node.{
  QueueNode, delivered, consume, consume_found, deliver, mark_in_flight,
}
use distributed_sync_system.Queue.Redeliver.{fail_message, requeue_message, redeliver_message}

module _ {J : Type 0} (codec : Codec J) where
  pub unread : (m : Message J) → from_dict (unflatten codec []) ≡ returned m → ⊥
  unfolding from_dict with_required all_known unflatten lookup
  unread m e = cc e

module _ {J : Type 0} (codec : Codec J) (db : Redis) where
  -- What `consume` does with a message that it reads.
  pub consume_found_read :
      (q i : String) (now deadline : ℕ) (m : Message J) (n : QueueNode db.Store)
      → from_dict (unflatten codec (db.hgetall (msg_key q i) n.redis)) ≡ returned m
      → consume_found codec db q i now deadline n ≡ (
        deliver codec db q i now deadline m n,
        returned (delivered (mark_in_flight now deadline m)),
      )
  unfolding consume_found deliver mark_in_flight
  consume_found_read q i now deadline m n h =
      let key = msg_key q i in
      elim (List-cases (db.hgetall key n.redis)) [
        | inl e ↦ absurd (unread codec m (rw (sym e) h))
        | inr (x, xs, e) ↦
            let read : from_dict (unflatten codec (x ∷ xs)) ≡ returned m = rw (sym e) h in
            rw (e, consume_found) (rw (read, deliver) refl)
      ]

  -- What `consume` does from the id that it takes off the list.
  pub consume_popped :
      (r j : String) (ack_timeout now later : ℕ) (n : QueueNode db.Store)
      → (db.rpop (pending_key r) n.redis).1 ≡ some j
      → j ≢ ""
      → consume codec db r ack_timeout now later n
        ≡ consume_found codec db r j now
            (later + ack_timeout)
            (record n { redis = (db.rpop (pending_key r) n.redis).0 })
  unfolding consume
  consume_popped r j ack_timeout now later n e id = rw (e, consume) (if_neg (str_dec j "") id _ _)

module _ {J : Type 0} (codec : Codec J) (db : Redis) (max_retries : ℕ) where
  -- What the loop does with a message that it reads.
  pub redeliver_read :
      (key q i : String) (m : Message J) (n : QueueNode db.Store)
      → from_dict (unflatten codec (db.hgetall (msg_key q i) n.redis)) ≡ returned m
      → redeliver_message codec db max_retries key q i n
        ≡ elim (at_least max_retries m.retry_count) [
          | raised e ↦ (n, raised e)
          | returned true ↦ (fail_message codec db max_retries key q i m n, returned tt)
          | returned false ↦ (requeue_message codec db max_retries key q i m n, returned tt)
        ]
  unfolding redeliver_message
  redeliver_read key q i m n h = elim (List-cases (db.hgetall (msg_key q i) n.redis)) [
    | inl e ↦ absurd (unread codec m (rw (sym e) h))
    | inr (x, xs, e) ↦
        let read : from_dict (unflatten codec (x ∷ xs)) ≡ returned m = rw (sym e) h in
        rw (e, redeliver_message) (rw (read, redeliver_message) refl)
  ]
