-- ===== src/Queue/Kept/Sound.antt =====
-- A redelivery of src/nodes/queue_node.py that meets no hash that it cannot read.
use distributed_sync_system.Base.{
  ℕ, ◌≡◌, ◌⊎◌, inl, inr, refl, sym, ◌∙◌, Bool, true, false, none, List, [], ◌∷◌, String, Dict,
  lookup, str_dec, arith, returned, Outcome, leb, suc, subst, if_pos, if_neg, Bool-cases,
}
use distributed_sync_system.Queue.Keys.{msg_key, pending_key}
use distributed_sync_system.Queue.Store.{Redis, update}
use distributed_sync_system.Queue.Message.{
  Value, str, integer, real, flag, nothing, structure, Codec, Message, to_dict, from_dict, at_least,
  plus_one, flatten, unflatten,
}
use distributed_sync_system.Queue.Node.{QueueNode}
use distributed_sync_system.Queue.Redeliver.{
  failing, again, fail_message, requeue_message, redeliver_message, redeliver_ids,
}
use distributed_sync_system.Queue.Reads.{redeliver_read}
use distributed_sync_system.Queue.Stored.{
  AllStorable, again-AllStorable, failing-AllStorable, from_dict-saved, from_dict_known,
}

module _ {J : Type 0} (codec : Codec J) (db : Redis) (max_retries : ℕ) where
  -- A message whose count of tries is a number, with values that the store gives back.
  pub record Countable (m : Message J) : Type 0 where
    pub storable : AllStorable codec m
    pub more : Bool
    pub counts : at_least max_retries m.retry_count ≡ returned more

  abbrev pub Readable : Dict String → Type 0
  Readable h =
      (h ≡ []) ⊎ ((m : Message J) × (from_dict (unflatten codec h) ≡ returned m) × Countable m)

  -- Each hash of the store is gone or a message.
  abbrev pub Sound : db.Store → Type 0
  Sound s = (key : String) → Readable (db.hgetall key s)

  plus_one_counts :
      (v : Value J) (b : Bool)
      → at_least max_retries v ≡ returned b
      → (c : Bool) × (at_least max_retries (plus_one v) ≡ returned c)
  unfolding at_least plus_one
  plus_one_counts (integer n) b e = (leb max_retries (suc n), refl)
  plus_one_counts (real n) b e = (leb max_retries (suc n), refl)
  plus_one_counts (flag true) b e = (leb max_retries 2, refl)
  plus_one_counts (flag false) b e = (leb max_retries 1, refl)
  plus_one_counts (str t) b e = absurd (cc e)
  plus_one_counts nothing b e = absurd (cc e)
  plus_one_counts (structure j) b e = absurd (cc e)

  failing-Countable : (m : Message J) → Countable m → Countable (failing m)
  unfolding failing
  failing-Countable m c = record {
    storable = failing-AllStorable codec m c.storable;
    more = c.more;
    counts = c.counts;
  }

  again-Countable : (m : Message J) → Countable m → Countable (again m)
  unfolding again
  again-Countable m c =
      let (b, e) = plus_one_counts m.retry_count c.more c.counts in
      record { storable = again-AllStorable codec m c.storable; more = b; counts = e }

  hset-Sound :
      (k : String) (m m' : Message J) (s : db.Store)
      → from_dict (unflatten codec (db.hgetall k s)) ≡ returned m
      → Countable m'
      → Sound s
      → Sound (db.hset k (flatten codec (to_dict m')) s)
  hset-Sound k m m' s read c sound key =
      let fields = flatten codec (to_dict m') in
      let old = db.hgetall k s in
      let e = db.hgetall-hset key k fields s in
      elim (str_dec key k) [
        | yes own ↦
            let saved : db.hgetall key (db.hset k fields s) ≡ update fields old =
              e ∙ if_pos (str_dec key k) own (update fields old) (db.hgetall key s) in
            inr (
              m',
              rw saved (
                  from_dict-saved codec m' old c.storable
                    (from_dict_known codec (unflatten codec old) m read)),
              c,
            )
        | no other ↦
            let kept : db.hgetall key (db.hset k fields s) ≡ db.hgetall key s =
              e ∙ if_neg (str_dec key k) other (update fields old) (db.hgetall key s) in
            subst Readable (sym kept) (sound key)
      ]

  zrem-Sound : (k x : String) (s : db.Store) → Sound s → Sound (db.zrem k x s)
  zrem-Sound k x s sound key = subst Readable (sym (db.hgetall-zrem key k x s)) (sound key)

  lpush-Sound : (k x : String) (s : db.Store) → Sound s → Sound (db.lpush k x s)
  lpush-Sound k x s sound key = subst Readable (sym (db.hgetall-lpush key k x s)) (sound key)

  -- A member of a sorted set stays as it is or goes.
  abbrev pub Fades : db.Store → db.Store → Type 0
  Fades s s' =
      (k i : String)
      → (lookup i (db.scores k s') ≡ lookup i (db.scores k s)) ⊎ (lookup i (db.scores k s') ≡ none)

  pub Fades-trans : (s t u : db.Store) → Fades s t → Fades t u → Fades s u
  Fades-trans s t u f g k i = ground (arith, f k i, g k i)

  zrem-Fades :
      (key j k : String) (fields : Dict String) (s : db.Store)
      → Fades s (db.zrem key j (db.hset k fields s))
  zrem-Fades key j k fields s l i = ground (
    arith,
    db.scores-zrem l key j i (db.hset k fields s),
    db.scores-hset l k fields s,
    db.scores-hset key k fields s,
  )

  -- It returns, and leaves such a store.
  pub record Passed (n n' : QueueNode db.Store) (ended : Outcome (Unit {0})) : Type 0 where
    pub returns : ended ≡ returned tt
    pub sound : Sound n'.redis
    pub fades : Fades n.redis n'.redis

  fail_passes :
      (key r j : String) (m : Message J) (n : QueueNode db.Store)
      → from_dict (unflatten codec (db.hgetall (msg_key r j) n.redis)) ≡ returned m
      → Countable m
      → Sound n.redis
      → Passed n (fail_message codec db max_retries key r j m n) (returned tt)
  unfolding fail_message
  fail_passes key r j m n h c sound =
      let fields = flatten codec (to_dict (failing m)) in
      record {
        returns = refl;
        sound =
            zrem-Sound key j (db.hset (msg_key r j) fields n.redis)
              (hset-Sound (msg_key r j) m (failing m) n.redis h (failing-Countable m c) sound);
        fades = zrem-Fades key j (msg_key r j) fields n.redis;
      }

  requeue_passes :
      (key r j : String) (m : Message J) (n : QueueNode db.Store)
      → from_dict (unflatten codec (db.hgetall (msg_key r j) n.redis)) ≡ returned m
      → Countable m
      → Sound n.redis
      → Passed n (requeue_message codec db max_retries key r j m n) (returned tt)
  unfolding requeue_message
  requeue_passes key r j m n h c sound =
      let fields = flatten codec (to_dict (again m)) in
      let removed = db.zrem key j (db.hset (msg_key r j) fields n.redis) in
      record {
        returns = refl;
        sound = lpush-Sound (pending_key r) j removed (
            zrem-Sound key j (db.hset (msg_key r j) fields n.redis)
              (hset-Sound (msg_key r j) m (again m) n.redis h (again-Countable m c) sound));
        fades = λ k i.
            rw (db.scores-lpush k (pending_key r) j removed)
              (zrem-Fades key j (msg_key r j) fields n.redis k i);
      }

  pub redeliver_message_passes :
      (key r j : String) (n : QueueNode db.Store)
      → Sound n.redis
      → let p = redeliver_message codec db max_retries key r j n in Passed n p.0 p.1
  unfolding redeliver_message
  redeliver_message_passes key r j n sound = elim (sound (msg_key r j)) [
    | inl e ↦
        rw (e, redeliver_message)
          (record { returns = refl; sound = sound; fades = λ k i. inl refl })
    | inr (m, h, c) ↦ rw (redeliver_read codec db max_retries key r j m n h) (
        rw c.counts (elim (Bool-cases c.more) [
          | inl t ↦ rw t (fail_passes key r j m n h c sound)
          | inr f ↦ rw f (requeue_passes key r j m n h c sound)
        ]))
  ]

  pub redeliver_ids_passes :
      (key r : String) (ids : List String) (n : QueueNode db.Store)
      → Sound n.redis
      → let p = redeliver_ids codec db max_retries key r ids n in Passed n p.0 p.1
  unfolding redeliver_ids
  redeliver_ids_passes key r [] n sound = record {
    returns = refl;
    sound = sound;
    fades = λ k i. inl refl;
  }
  redeliver_ids_passes key r (j ∷ ids) n sound =
      let p = redeliver_message codec db max_retries key r j n in
      let first = redeliver_message_passes key r j n sound in
      let rest = redeliver_ids_passes key r ids p.0 first.sound in
      rw (first.returns, redeliver_ids)
        (record {
          returns = rest.returns;
          sound = rest.sound;
          fades =
              Fades-trans n.redis p.0.redis
                (redeliver_ids codec db max_retries key r ids p.0).0.redis first.fades rest.fades;
        })
