-- ===== src/Queue/Kept/Redelivery.antt =====
-- The redelivery of src/nodes/queue_node.py loses no message.
use distributed_sync_system.Base.{
  ℕ, ◌≡◌, ◌≢◌, ◌⊎◌, inl, inr, refl, sym, ap, ◌∙◌, true, false, List, [], ◌∷◌, String, Dict,
  returned, raised, List-cases, arith, leb, suc, Outcome-cases, returned_inj,
}
use distributed_sync_system.Queue.Keys.{
  msg_key, pending_key, in_flight_key, queue_of, has_colon, queue_of-in_flight_key, queue_of-Free,
}
use distributed_sync_system.Queue.Store.{Redis}
use distributed_sync_system.Queue.Message.{
  Codec, Message, to_dict, from_dict, at_least, plus_one, flatten, unflatten,
}
use distributed_sync_system.Queue.Node.{QueueNode}
use distributed_sync_system.Queue.Redeliver.{
  failing, again, fail_message, requeue_message, redeliver_message, redeliver_ids, redeliver_key,
  redeliver_keys,
}
use distributed_sync_system.Queue.Stored.{again-AllStorable, failing-AllStorable}
use distributed_sync_system.Queue.Kept.{
  Kept, Held, Tries, Held-hset_self, Held-zrem, Held-lpush, lpush_self, hset_other, lpush_any,
  zrem_other,
}
use distributed_sync_system.Queue.Reads.{redeliver_read}
use distributed_sync_system.Queue.Kept.Handlers.{same_or_apart, at_same, msg_key_apart}

module _ {J : Type 0} (codec : Codec J) (db : Redis) (max_retries : ℕ) (q i : String)
    (plain : has_colon q ≡ false) where
  abbrev K : db.Store → Type 0
  K = Kept codec db max_retries q i

  pub set_apart :
      (key r j : String)
      → queue_of key ≡ returned r
      → (q ≢ r) ⊎ (i ≢ j)
      → (in_flight_key q ≢ key) ⊎ (i ≢ j)
  set_apart key r j e other = elim other [
    | inl d ↦
        inl (λ same. d (returned_inj (sym (queue_of-in_flight_key q plain) ∙ ap queue_of same ∙ e)))
    | inr d ↦ inr d
  ]

  fail_own :
      (key : String) (m : Message J) (n : QueueNode db.Store)
      → Held codec db max_retries q i n.redis m
      → at_least max_retries m.retry_count ≡ returned true
      → K (fail_message codec db max_retries key q i m n).redis
  unfolding fail_message failing
  fail_own key m n h e =
      let saved = db.hset (msg_key q i) (flatten codec (to_dict (failing m))) n.redis in
      record {
        message = failing m;
        held = Held-zrem codec db max_retries q i key i saved (failing m) (
            Held-hset_self codec db max_retries q i n.redis m (failing m) h
              (failing-AllStorable codec m h.storable)
              (record {
                count = h.tries.count;
                counted = h.tries.counted;
                within = h.tries.within;
              }));
        placed = inr (inr (record { status = refl; retries = e }));
      }

  -- A message that is redelivered had a try left.
  pub once_more :
      (m : Message J)
      → Tries codec db max_retries q i m
      → at_least max_retries m.retry_count ≡ returned false
      → Tries codec db max_retries q i (again m)
  unfolding again at_least plus_one
  once_more m t e =
      let left : leb max_retries t.count ≡ false = returned_inj (rw t.counted at e) in
      record {
        count = suc t.count;
        counted = rw (t.counted, plus_one) refl;
        within = ground (arith, left);
      }

  requeue_own :
      (key : String) (m : Message J) (n : QueueNode db.Store)
      → Held codec db max_retries q i n.redis m
      → at_least max_retries m.retry_count ≡ returned false
      → K (requeue_message codec db max_retries key q i m n).redis
  unfolding requeue_message
  requeue_own key m n h e =
      let saved = db.hset (msg_key q i) (flatten codec (to_dict (again m))) n.redis in
      let removed = db.zrem key i saved in
      record {
        message = again m;
        held = Held-lpush codec db max_retries q i (pending_key q) i removed (again m) (
            Held-zrem codec db max_retries q i key i saved (again m) (
              Held-hset_self codec db max_retries q i n.redis m (again m) h
                (again-AllStorable codec m h.storable) (once_more m h.tries e)));
        placed = inl (lpush_self codec db max_retries q i removed);
      }

  redeliver_own :
      (key : String) (n : QueueNode db.Store)
      → K n.redis
      → K (redeliver_message codec db max_retries key q i n).0.redis
  redeliver_own key n k =
      rw (redeliver_read codec db max_retries key q i k.message n k.held.reads)
        (elim (Outcome-cases (at_least max_retries k.message.retry_count)) [
          | inl (true, e) ↦ rw e (fail_own key k.message n k.held e)
          | inl (false, e) ↦ rw e (requeue_own key k.message n k.held e)
          | inr (x, e) ↦ rw e k
        ])

  module _ (key r j : String) (named : queue_of key ≡ returned r) (other : (q ≢ r) ⊎ (i ≢ j)) where
    save_other :
        (fields : Dict String) (s : db.Store)
        → K s
        → K (db.zrem key j (db.hset (msg_key r j) fields s))
    save_other fields s k =
        zrem_other codec db max_retries q i key j (db.hset (msg_key r j) fields s)
          (set_apart key r j named other)
          (hset_other codec db max_retries q i (msg_key r j) fields s
            (msg_key_apart q i r j plain (queue_of-Free key r named) other) k)

    read_other :
        (m : Message J) (n : QueueNode db.Store)
        → from_dict (unflatten codec (db.hgetall (msg_key r j) n.redis)) ≡ returned m
        → K n.redis
        → K (redeliver_message codec db max_retries key r j n).0.redis
    unfolding fail_message requeue_message
    read_other m n h k =
        rw (redeliver_read codec db max_retries key r j m n h)
          (elim (Outcome-cases (at_least max_retries m.retry_count)) [
            | inl (true, e) ↦ rw e (save_other (flatten codec (to_dict (failing m))) n.redis k)
            | inl (false, e) ↦
                let fields = flatten codec (to_dict (again m)) in
                rw e (
                  lpush_any codec db max_retries q i (pending_key r) j
                    (db.zrem key j (db.hset (msg_key r j) fields n.redis))
                    (save_other fields n.redis k))
            | inr (x, e) ↦ rw e k
          ])

    redeliver_other :
        (n : QueueNode db.Store)
        → K n.redis
        → K (redeliver_message codec db max_retries key r j n).0.redis
    unfolding redeliver_message
    redeliver_other n k =
        elim (Outcome-cases (from_dict (unflatten codec (db.hgetall (msg_key r j) n.redis)))) [
          | inl (m, h) ↦ read_other m n h k
          | inr (x, h) ↦ elim (List-cases (db.hgetall (msg_key r j) n.redis)) [
            | inl e ↦ rw (e, redeliver_message) k
            | inr (y, ys, e) ↦
                let bad : from_dict (unflatten codec (y ∷ ys)) ≡ raised x = rw (sym e) h in
                rw (e, redeliver_message) (rw (bad, redeliver_message) k)
          ]
        ]

  pub redeliver_message-Kept :
      (key r j : String) (n : QueueNode db.Store)
      → queue_of key ≡ returned r
      → K n.redis
      → K (redeliver_message codec db max_retries key r j n).0.redis
  redeliver_message-Kept key r j n named k = elim (same_or_apart q r i j) [
    | inl (a, b) ↦
        at_same (λ x y. K (redeliver_message codec db max_retries key x y n).0.redis) q r i j a b
          (redeliver_own key n k)
    | inr d ↦ redeliver_other key r j named d n k
  ]

  redeliver_ids-Kept :
      (key r : String) (ids : List String) (n : QueueNode db.Store)
      → queue_of key ≡ returned r
      → K n.redis
      → K (redeliver_ids codec db max_retries key r ids n).0.redis
  unfolding redeliver_ids
  redeliver_ids-Kept key r [] n named k = k
  redeliver_ids-Kept key r (j ∷ ids) n named k =
      let k' = redeliver_message-Kept key r j n named k in
      let n' = (redeliver_message codec db max_retries key r j n).0 in
      elim (Outcome-cases (redeliver_message codec db max_retries key r j n).1) [
        | inl (u, e) ↦ rw (e, redeliver_ids) (redeliver_ids-Kept key r ids n' named k')
        | inr (x, e) ↦ rw (e, redeliver_ids) k'
      ]

  pub redeliver_key-Kept :
      (now : ℕ) (key : String) (n : QueueNode db.Store)
      → K n.redis
      → K (redeliver_key codec db max_retries now key n).0.redis
  unfolding redeliver_key
  redeliver_key-Kept now key n k = elim (Outcome-cases (queue_of key)) [
    | inl (r, e) ↦
        rw (e, redeliver_key) (redeliver_ids-Kept key r (db.zrangebyscore key now n.redis) n e k)
    | inr (x, e) ↦ rw (e, redeliver_key) k
  ]

  pub redeliver_keys-Kept :
      (now : ℕ) (keys : List String) (n : QueueNode db.Store)
      → K n.redis
      → K (redeliver_keys codec db max_retries now keys n).0.redis
  unfolding redeliver_keys
  redeliver_keys-Kept now [] n k = k
  redeliver_keys-Kept now (key ∷ keys) n k =
      let k' = redeliver_key-Kept now key n k in
      let n' = (redeliver_key codec db max_retries now key n).0 in
      elim (Outcome-cases (redeliver_key codec db max_retries now key n).1) [
        | inl (u, e) ↦ rw (e, redeliver_keys) (redeliver_keys-Kept now keys n' k')
        | inr (x, e) ↦ rw (e, redeliver_keys) k'
      ]
