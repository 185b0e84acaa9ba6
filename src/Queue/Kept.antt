-- ===== src/Queue/Kept.antt =====
-- Where a message of the queue of src/nodes/queue_node.py is: on the list, in flight, or failed.
pub mod Handlers
pub mod Redelivery
pub mod Runs
pub mod Sound
pub mod Landing
use Prim.Native.String.{◌++◌}
use text.Mathlib.TextLemmas.{append_cancel_left, append_cancel_right}
use distributed_sync_system.Base.{
  ◌≤◌, ℕ, ◌≡◌, ◌≢◌, ◌⊎◌, inl, inr, refl, sym, ap, ◌∙◌, Bool, true, false, Option, none, some, List,
  [], ◌∷◌, String, Dict, lookup, contains, ite, str_dec, arith, returned, Option-cases, Bool-cases,
}
use distributed_sync_system.Queue.Keys.{msg_key, pending_key, in_flight_key, has_colon, msg_key_inj}
use distributed_sync_system.Queue.Store.{Redis, update, last_of, but_last}
use distributed_sync_system.Queue.Message.{
  integer, failed, value_of, str, Codec, Message, to_dict, from_dict, all_known, at_least, flatten,
  unflatten,
}
use distributed_sync_system.Queue.Stored.{AllStorable, from_dict-saved, from_dict_known}

pub pending_key_inj : (q r : String) → pending_key q ≡ pending_key r → q ≡ r
unfolding pending_key
pending_key_inj q r e =
    append_cancel_right q r ":pending"
      (append_cancel_left "queue:" (q ++ ":pending") (r ++ ":pending") e)

pub contains-but_last :
    (i : String) (xs : List String)
    → last_of xs ≢ some i
    → contains i xs ≡ true
    → contains i (but_last xs) ≡ true
unfolding last_of but_last contains
contains-but_last i [] n c = absurd (cc)
contains-but_last i (x ∷ []) n c = absurd (ground (arith, n, c))
contains-but_last i (x ∷ y ∷ xs) n c = ground (arith, contains-but_last i (y ∷ xs) n)

module _ {J : Type 0} (codec : Codec J) (db : Redis) (max_retries : ℕ) (q i : String) where
  -- It was given up, with a retry count of at least the limit.
  pub record Exhausted (m : Message J) : Type 0 where
    pub status : m.status ≡ str (value_of failed)
    pub retries : at_least max_retries m.retry_count ≡ returned true

  abbrev pub IsPending : db.Store → Type 0
  IsPending s = contains i (db.list (pending_key q) s) ≡ true

  abbrev pub IsFlying : db.Store → Type 0
  IsFlying s = lookup i (db.scores (in_flight_key q) s) ≢ none

  -- Its retry count is at most the limit.
  pub record Tries (m : Message J) : Type 0 where
    pub count : ℕ
    pub counted : m.retry_count ≡ integer count
    pub within : count ≤ max_retries

  -- The node reads this message under the key.
  pub record Held (s : db.Store) (m : Message J) : Type 0 where
    pub reads : from_dict (unflatten codec (db.hgetall (msg_key q i) s)) ≡ returned m
    pub storable : AllStorable codec m
    pub tries : Tries m

  -- The store has the message `i` of the queue `q`, and it is not lost.
  pub record Kept (s : db.Store) : Type 0 where
    pub message : Message J
    pub held : Held s message
    pub placed : IsPending s ⊎ (IsFlying s ⊎ Exhausted message)

  -- What leaves the hash alone keeps what is held.
  pub Held-same :
      (s s' : db.Store) (m : Message J)
      → db.hgetall (msg_key q i) s' ≡ db.hgetall (msg_key q i) s
      → Held s m
      → Held s' m
  Held-same s s' m e h = record { reads = rw e h.reads; storable = h.storable; tries = h.tries }

  abbrev pub IsKnown : db.Store → Type 0
  IsKnown s = all_known (unflatten codec (db.hgetall (msg_key q i) s)) ≡ true

  pub Held-IsKnown : (s : db.Store) (m : Message J) → Held s m → IsKnown s
  Held-IsKnown s m h =
      from_dict_known codec (unflatten codec (db.hgetall (msg_key q i) s)) m h.reads

  -- Saving a message where no other field is makes it the one that is read.
  pub Held-hset :
      (s : db.Store) (m : Message J)
      → IsKnown s
      → AllStorable codec m
      → Tries m
      → Held (db.hset (msg_key q i) (flatten codec (to_dict m)) s) m
  Held-hset s m known a t =
      let old = db.hgetall (msg_key q i) s in
      let fields = flatten codec (to_dict m) in
      let e : db.hgetall (msg_key q i) (db.hset (msg_key q i) fields s) ≡ update fields old =
        ground (arith, db.hgetall-hset (msg_key q i) (msg_key q i) fields s) in
      record { reads = rw e (from_dict-saved codec m old a known); storable = a; tries = t }

  pub Held-hset_self :
      (s : db.Store) (m m' : Message J)
      → Held s m
      → AllStorable codec m'
      → Tries m'
      → Held (db.hset (msg_key q i) (flatten codec (to_dict m')) s) m'
  Held-hset_self s m m' h a t = Held-hset s m' (Held-IsKnown s m h) a t

  -- What leaves the hash alone and takes the id off neither the list nor the set.
  pub record Spares (s s' : db.Store) : Type 0 where
    pub hash : db.hgetall (msg_key q i) s' ≡ db.hgetall (msg_key q i) s
    pub listed : IsPending s → IsPending s'
    pub flying : IsFlying s → IsFlying s'

  -- It loses nothing.
  keep : (s s' : db.Store) → Spares s s' → Kept s → Kept s'
  keep s s' x k = record {
    message = k.message;
    held = Held-same s s' k.message x.hash k.held;
    placed = elim k.placed [
      | inl a ↦ inl (x.listed a)
      | inr b ↦ elim b [ inl a ↦ inr (inl (x.flying a)) | inr x ↦ inr (inr x) ]
    ];
  }

  pub lpush_self : (s : db.Store) → IsPending (db.lpush (pending_key q) i s)
  unfolding contains
  lpush_self s = ground (arith, db.list-lpush (pending_key q) (pending_key q) i s)

  pub zadd_self : (t : ℕ) (s : db.Store) → IsFlying (db.zadd (in_flight_key q) i t s)
  zadd_self t s = ground (arith, db.scores-zadd (in_flight_key q) (in_flight_key q) i i t s)

  pub Held-lpush :
      (k x : String) (s : db.Store) (m : Message J) → Held s m → Held (db.lpush k x s) m
  Held-lpush k x s m = Held-same s (db.lpush k x s) m (db.hgetall-lpush (msg_key q i) k x s)

  pub Held-rpop : (k : String) (s : db.Store) (m : Message J) → Held s m → Held (db.rpop k s).0 m
  Held-rpop k s m = Held-same s (db.rpop k s).0 m (db.hgetall-rpop (msg_key q i) k s)

  pub Held-zadd :
      (k x : String) (t : ℕ) (s : db.Store) (m : Message J) → Held s m → Held (db.zadd k x t s) m
  Held-zadd k x t s m = Held-same s (db.zadd k x t s) m (db.hgetall-zadd (msg_key q i) k x t s)

  pub Held-zrem : (k x : String) (s : db.Store) (m : Message J) → Held s m → Held (db.zrem k x s) m
  Held-zrem k x s m = Held-same s (db.zrem k x s) m (db.hgetall-zrem (msg_key q i) k x s)

  pub IsPending-hset :
      (k : String) (fields : Dict String) (s : db.Store)
      → IsPending s
      → IsPending (db.hset k fields s)
  IsPending-hset k fields s p = rw (db.list-hset (pending_key q) k fields s) p

  pub hset-Spares :
      (k : String) (fields : Dict String) (s : db.Store)
      → msg_key q i ≢ k
      → Spares s (db.hset k fields s)
  hset-Spares k fields s other = record {
    hash = ground (arith, db.hgetall-hset (msg_key q i) k fields s);
    listed = IsPending-hset k fields s;
    flying = λ f. rw (db.scores-hset (in_flight_key q) k fields s) f;
  }

  pub expire-Spares : (k : String) (t : ℕ) (s : db.Store) → Spares s (db.expire k t s)
  expire-Spares k t s = record {
    hash = db.hgetall-expire (msg_key q i) k t s;
    listed = λ p. rw (db.list-expire (pending_key q) k t s) p;
    flying = λ f. rw (db.scores-expire (in_flight_key q) k t s) f;
  }

  pub lpush-Spares : (k x : String) (s : db.Store) → Spares s (db.lpush k x s)
  unfolding contains
  lpush-Spares k x s = record {
    hash = db.hgetall-lpush (msg_key q i) k x s;
    listed = λ p. ground (arith, db.list-lpush (pending_key q) k x s);
    flying = λ f. rw (db.scores-lpush (in_flight_key q) k x s) f;
  }

  pub zadd-Spares : (k x : String) (t : ℕ) (s : db.Store) → Spares s (db.zadd k x t s)
  zadd-Spares k x t s = record {
    hash = db.hgetall-zadd (msg_key q i) k x t s;
    listed = λ p. rw (db.list-zadd (pending_key q) k x t s) p;
    flying = λ f. ground (arith, db.scores-zadd (in_flight_key q) k x i t s);
  }

  pub zrem-Spares :
      (k x : String) (s : db.Store) → (in_flight_key q ≢ k) ⊎ (i ≢ x) → Spares s (db.zrem k x s)
  zrem-Spares k x s other = record {
    hash = db.hgetall-zrem (msg_key q i) k x s;
    listed = λ p. rw (db.list-zrem (pending_key q) k x s) p;
    flying = λ f. ground (arith, other, db.scores-zrem (in_flight_key q) k x i s);
  }

  pub rpop-Spares :
      (k : String) (s : db.Store)
      → (pending_key q ≢ k) ⊎ ((db.rpop k s).1 ≢ some i)
      → Spares s (db.rpop k s).0
  rpop-Spares k s other = record {
    hash = db.hgetall-rpop (msg_key q i) k s;
    listed = λ p. ground (
      arith,
      other,
      db.list-rpop (pending_key q) k s,
      db.rpop_last k s,
      contains-but_last i (db.list k s),
    );
    flying = λ f. rw (db.scores-rpop (in_flight_key q) k s) f;
  }

  pub hset_other :
      (k : String) (fields : Dict String) (s : db.Store)
      → msg_key q i ≢ k
      → Kept s
      → Kept (db.hset k fields s)
  hset_other k fields s other = keep s (db.hset k fields s) (hset-Spares k fields s other)

  pub expire_any : (k : String) (t : ℕ) (s : db.Store) → Kept s → Kept (db.expire k t s)
  expire_any k t s = keep s (db.expire k t s) (expire-Spares k t s)

  pub lpush_any : (k x : String) (s : db.Store) → Kept s → Kept (db.lpush k x s)
  lpush_any k x s = keep s (db.lpush k x s) (lpush-Spares k x s)

  pub zadd_any : (k x : String) (t : ℕ) (s : db.Store) → Kept s → Kept (db.zadd k x t s)
  zadd_any k x t s = keep s (db.zadd k x t s) (zadd-Spares k x t s)

  pub zrem_other :
      (k x : String) (s : db.Store)
      → (in_flight_key q ≢ k) ⊎ (i ≢ x)
      → Kept s
      → Kept (db.zrem k x s)
  zrem_other k x s other = keep s (db.zrem k x s) (zrem-Spares k x s other)

  pub rpop_other :
      (k : String) (s : db.Store)
      → (pending_key q ≢ k) ⊎ ((db.rpop k s).1 ≢ some i)
      → Kept s
      → Kept (db.rpop k s).0
  rpop_other k s other = keep s (db.rpop k s).0 (rpop-Spares k s other)
