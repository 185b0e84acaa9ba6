-- ===== src/Queue/Tasks/Alone.antt =====
-- The calls of src/nodes/queue_node.py as Queue/Node and Queue/Redeliver have them are the runs of their
-- commands in which no other task uses the awaits.
use distributed_sync_system.Base.{
  inl, inr, ℕ, ◌+◌, ◌≡◌, refl, true, false, Option, none, some, ◌∷◌, String, str_dec, returned,
  Option-cases, Outcome-cases, List-cases, if_pos, if_neg,
}
use distributed_sync_system.Queue.Keys.{msg_key, pending_key}
use distributed_sync_system.Queue.Store.{Redis}
use distributed_sync_system.Queue.Message.{Codec, Message, from_dict, at_least, unflatten}
use distributed_sync_system.Queue.Node.{
  QueueNode, empty, store_message, consume, consume_found, deliver, acknowledge, mark_in_flight,
}
use distributed_sync_system.Queue.Redeliver.{
  failing, again, fail_message, requeue_message, redeliver_message,
}
use distributed_sync_system.Queue.Tasks.{
  Task, storing_save, consuming_pop, consuming_read, acknowledging_mark, checking, found_message,
  check_found, advance, alone,
}

module _ {J : Type 0} (codec : Codec J) (db : Redis) (max_retries : ℕ) where
  store_message-alone :
      (now later : ℕ) (m : Message J) (n : QueueNode db.Store)
      → alone codec db max_retries now later 3 (some (storing_save m)) n
        ≡ store_message codec db m n
  unfolding alone advance store_message
  store_message-alone now later m n = refl

  acknowledge-alone :
      (now later : ℕ) (r j : String) (n : QueueNode db.Store)
      → alone codec db max_retries now later 2 (some (acknowledging_mark r j)) n
        ≡ acknowledge db r j n
  unfolding alone advance acknowledge
  acknowledge-alone now later r j n = refl

  consume_found-alone :
      (now later : ℕ) (r j : String) (a : ℕ) (n : QueueNode db.Store)
      → alone codec db max_retries now later 3 (some (consuming_read r j a)) n
        ≡ (consume_found codec db r j now (later + a) n).0
  unfolding alone advance consume_found found_message deliver mark_in_flight
  consume_found-alone now later r j a n = elim (List-cases (db.hgetall (msg_key r j) n.redis)) [
    | inl e ↦ rw (e, consume_found, alone) refl
    | inr (x, xs, e) ↦ elim (Outcome-cases (from_dict (unflatten codec (x ∷ xs)))) [
      | inl (m, h) ↦ rw (e, consume_found, alone) (rw (h, consume_found, alone) refl)
      | inr (err, h) ↦ rw (e, consume_found, alone) (rw (h, consume_found, alone) refl)
    ]
  ]

  consume-alone :
      (now later : ℕ) (r : String) (a : ℕ) (n : QueueNode db.Store)
      → alone codec db max_retries now later 4 (some (consuming_pop r a)) n
        ≡ (consume codec db r a now later n).0
  unfolding alone advance consume
  consume-alone now later r a n =
      let n' : QueueNode db.Store = record n { redis = (db.rpop (pending_key r) n.redis).0 } in
      elim (Option-cases (db.rpop (pending_key r) n.redis).1) [
        | inl e ↦ rw (e, consume, alone) refl
        | inr (j, e) ↦ elim (str_dec j "") [
          | yes gone ↦
              rw (e, consume, alone)
                (rw
                  (if_pos {C = Option (Task J)} (str_dec j "") gone none
                    (some (consuming_read r j a)))
                  (rw
                    (if_pos (str_dec j "") gone (n', returned (empty r))
                      (consume_found codec db r j now (later + a) n'))
                    refl))
          | no id ↦
              rw (e, consume, alone)
                (rw
                  (if_neg {C = Option (Task J)} (str_dec j "") id none
                    (some (consuming_read r j a)))
                  (rw
                    (if_neg (str_dec j "") id (n', returned (empty r))
                      (consume_found codec db r j now (later + a) n'))
                    (consume_found-alone now later r j a n')))
        ]
      ]

  redeliver_message-alone :
      (now later : ℕ) (key r j : String) (n : QueueNode db.Store)
      → alone codec db max_retries now later 4 (some (checking key r j)) n
        ≡ (redeliver_message codec db max_retries key r j n).0
  unfolding alone advance redeliver_message found_message check_found fail_message requeue_message
      failing again
  redeliver_message-alone now later key r j n =
      elim (List-cases (db.hgetall (msg_key r j) n.redis)) [
        | inl e ↦ rw (e, redeliver_message, alone) refl
        | inr (x, xs, e) ↦ elim (Outcome-cases (from_dict (unflatten codec (x ∷ xs)))) [
          | inl (m, h) ↦
              rw (e, redeliver_message, alone)
                (rw (h, redeliver_message, alone)
                  (elim (Outcome-cases (at_least max_retries m.retry_count)) [
                    | inl (true, g) ↦ rw (g, redeliver_message, alone) refl
                    | inl (false, g) ↦ rw (g, redeliver_message, alone) refl
                    | inr (err, g) ↦ rw (g, redeliver_message, alone) refl
                  ]))
          | inr (err, h) ↦ rw (e, redeliver_message, alone) (rw (h, redeliver_message, alone) refl)
        ]
      ]
