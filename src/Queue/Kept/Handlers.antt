-- ===== src/Queue/Kept/Handlers.antt =====
-- The producer's and the consumer's calls of src/nodes/queue_node.py lose no message.
use Prim.Native.String.{◌++◌}
use text.Mathlib.TextLemmas.{append_cancel_left, append_cancel_right}
use mathlib.Core.Option.{some-injective}
use distributed_sync_system.Base.{
  if_pos, ℕ, ◌+◌, ◌≡◌, ◌≢◌, ◌⊎◌, inl, inr, refl, sym, false, some, [], ◌∷◌, String, str_dec,
  returned, Option-cases, List-cases, Outcome-cases, subst,
}
use distributed_sync_system.Queue.Keys.{msg_key, pending_key, in_flight_key, has_colon, msg_key_inj}
use distributed_sync_system.Queue.Store.{Redis}
use distributed_sync_system.Queue.Message.{
  completed, value_of, Codec, Message, to_dict, from_dict, all_known, flatten, unflatten, str_of,
}
use distributed_sync_system.Queue.Node.{
  QueueNode, empty, store_message, consume, consume_found, deliver, mark_in_flight, acknowledge,
}
use distributed_sync_system.Queue.Stored.{AllStorable, mark_in_flight-AllStorable}
use distributed_sync_system.Queue.Reads.{consume_popped, consume_found_read}
use distributed_sync_system.Queue.Kept.{
  Kept, Held, Tries, Held-hset_self, Held-hset, IsKnown, Held-IsKnown, Held-zadd, Held-lpush,
  Held-rpop, lpush_self, zadd_self, hset_other, expire_any, lpush_any, zadd_any, zrem_other,
  rpop_other, pending_key_inj,
}

in_flight_key_inj : (q r : String) → in_flight_key q ≡ in_flight_key r → q ≡ r
unfolding in_flight_key
in_flight_key_inj q r e =
    append_cancel_right q r ":in_flight"
      (append_cancel_left "queue:" (q ++ ":in_flight") (r ++ ":in_flight") e)

-- Two ids of queues are the same, or differ in one of the two.
pub same_or_apart : (q r i j : String) → ((q ≡ r) × (i ≡ j)) ⊎ ((q ≢ r) ⊎ (i ≢ j))
same_or_apart q r i j = elim (str_dec q r) [
  | yes e ↦ elim (str_dec i j) [ yes f ↦ inl (e, f) | no d ↦ inr (inr d) ]
  | no d ↦ inr (inl d)
]

pub at_same : (P : String → String → Type 0) (q r i j : String) → q ≡ r → i ≡ j → P q i → P r j
at_same P q r i j e f p = subst (λ x. P x j) e (subst (P q) f p)

module _ (q i r j : String) (plain : has_colon q ≡ false) (h : has_colon r ≡ false)
    (other : (q ≢ r) ⊎ (i ≢ j)) where
  pub msg_key_apart : msg_key q i ≢ msg_key r j
  msg_key_apart e =
      let (a, b) = msg_key_inj q r i j plain h e in elim other [ inl d ↦ d a | inr d ↦ d b ]

  pub flight_apart : (in_flight_key q ≢ in_flight_key r) ⊎ (i ≢ j)
  flight_apart = elim other [ inl d ↦ inl (λ e. d (in_flight_key_inj q r e)) | inr d ↦ inr d ]

module _ {J : Type 0} (codec : Codec J) (db : Redis) (max_retries : ℕ) (q i : String)
    (plain : has_colon q ≡ false) where
  abbrev K : db.Store → Type 0
  K = Kept codec db max_retries q i

  store_own :
      (m : Message J) (s : db.Store)
      → AllStorable codec m
      → Tries codec db max_retries q i m
      → IsKnown codec db max_retries q i s
      → K (db.lpush (pending_key q) i (db.hset (msg_key q i) (flatten codec (to_dict m)) s))
  store_own m s a t known =
      let own = db.hset (msg_key q i) (flatten codec (to_dict m)) s in
      record {
        message = m;
        held =
            Held-lpush codec db max_retries q i (pending_key q) i own m
              (Held-hset codec db max_retries q i s m known a t);
        placed = inl (lpush_self codec db max_retries q i own);
      }

  -- A message is kept from its first store on.
  pub store_message_new :
      (m : Message J) (n : QueueNode db.Store)
      → str_of codec m.queue ≡ q
      → str_of codec m.message_id ≡ i
      → AllStorable codec m
      → Tries codec db max_retries q i m
      → db.hgetall (msg_key q i) n.redis ≡ []
      → K (store_message codec db m n).redis
  unfolding store_message all_known unflatten
  store_message_new m n eq ei a t new =
      let fields = flatten codec (to_dict m) in
      let pushed = db.lpush (pending_key q) i (db.hset (msg_key q i) fields n.redis) in
      rw (eq, ei)
        (expire_any codec db max_retries q i (msg_key q i) 86400 pushed
          (store_own m n.redis a t (rw new refl)))

  -- A message that is stored is kept, and those that are there are, where their hash can be read.
  pub store_message-Kept :
      (m : Message J) (n : QueueNode db.Store)
      → AllStorable codec m
      → Tries codec db max_retries q i m
      → has_colon (str_of codec m.queue) ≡ false
      → K n.redis
      → K (store_message codec db m n).redis
  unfolding store_message
  store_message-Kept m n a t h k =
      let r = str_of codec m.queue in
      let j = str_of codec m.message_id in
      let fields = flatten codec (to_dict m) in
      let pushed = db.lpush (pending_key r) j (db.hset (msg_key r j) fields n.redis) in
      expire_any codec db max_retries q i (msg_key r j) 86400 pushed (elim (same_or_apart q r i j) [
        | inl (e, f) ↦
            at_same (λ x y. K (db.lpush (pending_key x) y (db.hset (msg_key x y) fields n.redis))) q
              r i j e f
              (store_own m n.redis a t
                (Held-IsKnown codec db max_retries q i n.redis k.message k.held))
        | inr d ↦
            lpush_any codec db max_retries q i (pending_key r) j
              (db.hset (msg_key r j) fields n.redis)
              (hset_other codec db max_retries q i (msg_key r j) fields n.redis
                (msg_key_apart q i r j plain h d) k)
      ])

  pub acknowledge-Kept :
      (r j : String) (n : QueueNode db.Store)
      → has_colon r ≡ false
      → (q ≢ r) ⊎ (i ≢ j)
      → K n.redis
      → K (acknowledge db r j n).redis
  unfolding acknowledge
  acknowledge-Kept r j n h other k =
      let fields = ("status", value_of completed) ∷ [] in
      zrem_other codec db max_retries q i (in_flight_key r) j (db.hset (msg_key r j) fields n.redis)
        (flight_apart q i r j plain h other)
        (hset_other codec db max_retries q i (msg_key r j) fields n.redis
          (msg_key_apart q i r j plain h other) k)

  deliver_other :
      (r j : String) (now deadline : ℕ) (m : Message J) (n : QueueNode db.Store)
      → has_colon r ≡ false
      → (q ≢ r) ⊎ (i ≢ j)
      → K n.redis
      → K (deliver codec db r j now deadline m n).redis
  unfolding deliver
  deliver_other r j now deadline m n h other k =
      let fields = flatten codec (to_dict (mark_in_flight now deadline m)) in
      zadd_any codec db max_retries q i (in_flight_key r) j deadline
        (db.hset (msg_key r j) fields n.redis)
        (hset_other codec db max_retries q i (msg_key r j) fields n.redis
          (msg_key_apart q i r j plain h other) k)

  consume_found_other :
      (r j : String) (now deadline : ℕ) (n : QueueNode db.Store)
      → has_colon r ≡ false
      → (q ≢ r) ⊎ (i ≢ j)
      → K n.redis
      → K (consume_found codec db r j now deadline n).0.redis
  unfolding consume_found
  consume_found_other r j now deadline n h other k =
      elim (List-cases (db.hgetall (msg_key r j) n.redis)) [
        | inl e ↦ rw (e, consume_found) k
        | inr (x, xs, e) ↦ elim (Outcome-cases (from_dict (unflatten codec (x ∷ xs)))) [
          | inl (m, read) ↦
              rw (e, consume_found)
                (rw (read, consume_found) (deliver_other r j now deadline m n h other k))
          | inr (err, read) ↦ rw (e, consume_found) (rw (read, consume_found) k)
        ]
      ]

  deliver_own :
      (now deadline : ℕ) (m : Message J) (n : QueueNode db.Store)
      → Held codec db max_retries q i n.redis m
      → K (deliver codec db q i now deadline m n).redis
  unfolding deliver
  deliver_own now deadline m n h =
      let m' = mark_in_flight now deadline m in
      let saved = db.hset (msg_key q i) (flatten codec (to_dict m')) n.redis in
      record {
        message = m';
        held = Held-zadd codec db max_retries q i (in_flight_key q) i deadline saved m' (
            Held-hset_self codec db max_retries q i n.redis m m' h
              (mark_in_flight-AllStorable codec now deadline m h.storable)
              (record {
                count = h.tries.count;
                counted = h.tries.counted;
                within = h.tries.within;
              }));
        placed = inr (inl (zadd_self codec db max_retries q i deadline saved));
      }

  consume_other :
      (r j : String) (ack_timeout now later : ℕ) (n : QueueNode db.Store)
      → (db.rpop (pending_key r) n.redis).1 ≡ some j
      → has_colon r ≡ false
      → (q ≢ r) ⊎ (i ≢ j)
      → K (db.rpop (pending_key r) n.redis).0
      → K (consume codec db r ack_timeout now later n).0.redis
  unfolding consume
  consume_other r j ack_timeout now later n e h other k =
      let n' : QueueNode db.Store = record n { redis = (db.rpop (pending_key r) n.redis).0 } in
      elim (str_dec j "") [
        | yes none_left ↦
            rw (e, consume)
              (rw
                (if_pos (str_dec j "") none_left (n', returned (empty r))
                  (consume_found codec db r j now (later + ack_timeout) n'))
                k)
        | no id ↦
            rw (consume_popped codec db r j ack_timeout now later n e id)
              (consume_found_other r j now (later + ack_timeout) n' h other k)
      ]

  consume_own :
      (ack_timeout now later : ℕ) (n : QueueNode db.Store) (m : Message J)
      → (db.rpop (pending_key q) n.redis).1 ≡ some i
      → i ≢ ""
      → Held codec db max_retries q i n.redis m
      → K (consume codec db q ack_timeout now later n).0.redis
  consume_own ack_timeout now later n m e named held =
      let n' : QueueNode db.Store = record n { redis = (db.rpop (pending_key q) n.redis).0 } in
      let held' = Held-rpop codec db max_retries q i (pending_key q) n.redis m held in
      rw (consume_popped codec db q i ack_timeout now later n e named) (
        rw (consume_found_read codec db q i now (later + ack_timeout) m n' held'.reads)
          (deliver_own now (later + ack_timeout) m n' held'))

  -- A call of consume keeps it, whatever it takes off whichever list.
  pub consume-Kept :
      (r : String) (ack_timeout now later : ℕ) (n : QueueNode db.Store)
      → has_colon r ≡ false
      → i ≢ ""
      → K n.redis
      → K (consume codec db r ack_timeout now later n).0.redis
  unfolding consume
  consume-Kept r ack_timeout now later n h named k =
      let pop = rpop_other codec db max_retries q i (pending_key r) n.redis in
      elim (Option-cases (db.rpop (pending_key r) n.redis).1) [
        | inl e ↦ rw (e, consume) (pop (inr (rw e (λ never. cc never))) k)
        | inr (j, e) ↦ elim (same_or_apart q r i j) [
          | inl (a, b) ↦
              at_same
                (λ x y.
                  (db.rpop (pending_key x) n.redis).1 ≡ some y
                  → K (consume codec db x ack_timeout now later n).0.redis)
                q r i j a b (λ own. consume_own ack_timeout now later n k.message own named k.held)
                e
          | inr d ↦ consume_other r j ack_timeout now later n e h d (
              pop
                (elim d [
                  | inl a ↦ inl (λ same. a (pending_key_inj q r same))
                  | inr b ↦ inr (rw e (λ same. b (sym (some-injective j i same))))
                ])
                k)
        ]
      ]
