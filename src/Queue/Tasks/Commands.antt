-- ===== src/Queue/Tasks/Commands.antt =====
-- The commands of the calls of src/nodes/queue_node.py that change the store, and the place of a message.

use distributed_sync_system.Base.{
  ℕ, ◌≡◌, ◌≢◌, ◌⊎◌, inl, inr, refl, sym, false, Option, none, some, String, subst,
}
use distributed_sync_system.Queue.Keys.{msg_key, pending_key, in_flight_key, has_colon}
use distributed_sync_system.Queue.Store.{Redis}
use distributed_sync_system.Queue.Message.{Codec, Message, to_dict, flatten}
use distributed_sync_system.Queue.Node.{QueueNode}
use distributed_sync_system.Queue.Stored.{}
use distributed_sync_system.Queue.Kept.{
  Held-same, Held-hset_self, Spares, IsPending, IsFlying, IsPending-hset, hset-Spares, lpush-Spares,
  zadd-Spares, zrem-Spares, lpush_self, zadd_self,
}
use distributed_sync_system.Queue.Kept.Handlers.{same_or_apart, at_same, msg_key_apart}
use distributed_sync_system.Queue.Tasks.Placed.{
  Readable, Fine, Carries, Holds, GivesUp, Lands, Moves, Readable-Spares, spared, one, ended,
}
use distributed_sync_system.Queue.Tasks.{Task, consuming_add}

module _ {J : Type 0} (codec : Codec J) (db : Redis) (max_retries : ℕ) (q i : String)
    (plain : has_colon q ≡ false) where
  abbrev R : db.Store → Type 0
  R = Readable codec db max_retries q i

  abbrev M : Task J → QueueNode db.Store → QueueNode db.Store × Option (Task J) → Type 0
  M = Moves codec db max_retries q i

  abbrev C : Task J → Type 0
  C = Carries codec db max_retries q i

  abbrev SparesIt : db.Store → db.Store → Type 0
  SparesIt = Spares codec db max_retries q i

  -- Saving a message under whichever id leaves one that can be read.
  pub saved-Readable :
      (r j : String) (m : Message J) (s : db.Store)
      → has_colon r ≡ false
      → Fine codec db max_retries q i r j m
      → R s
      → R (db.hset (msg_key r j) (flatten codec (to_dict m)) s)
  saved-Readable r j m s h fine (m', held) = elim (same_or_apart q r i j) [
    | inl (a, b) ↦
        let (storable, tries) = fine a b in
        at_same (λ x y. R (db.hset (msg_key x y) (flatten codec (to_dict m)) s)) q r i j a b
          (m, Held-hset_self codec db max_retries q i s m' m held storable tries)
    | inr d ↦
        let k = msg_key r j in
        let fields = flatten codec (to_dict m) in
        Readable-Spares codec db max_retries q i s (db.hset k fields s)
          (hset-Spares codec db max_retries q i k fields s (msg_key_apart q i r j plain h d))
          (m', held)
  ]

  -- Saving takes nothing off the list or out of the set.
  pub saved-Moves :
      (t next : Task J) (r j : String) (m : Message J) (n n' : QueueNode db.Store)
      → n'.redis ≡ db.hset (msg_key r j) (flatten codec (to_dict m)) n.redis
      → has_colon r ≡ false
      → Fine codec db max_retries q i r j m
      → C next
      → (Holds codec db max_retries q i t → Holds codec db max_retries q i next)
      → R n.redis
      → M t n (n', some next)
  saved-Moves t next r j m n n' e h fine c hold read =
      let k = msg_key r j in
      let fields = flatten codec (to_dict m) in
      record {
        reads = rw e (saved-Readable r j m n.redis h fine read);
        carried = λ t' same. one codec db max_retries q i C next t' same c;
        from_list = λ p. inl (rw e (IsPending-hset codec db max_retries q i k fields n.redis p));
        from_set =
            λ f. inl (inr (inl (rw e (rw (db.scores-hset (in_flight_key q) k fields n.redis) f))));
        from_task = λ x. inr (inr (next, refl, hold x));
      }

  -- The commands that put an id on a list or into a set.
  pub pushed-Moves :
      (t : Task J) (next : Option (Task J)) (k x : String) (n n' : QueueNode db.Store)
      → n'.redis ≡ db.lpush k x n.redis
      → R n.redis
      → ((t' : Task J) → next ≡ some t' → C t')
      → (Holds codec db max_retries q i t → (pending_key q ≡ k) × (i ≡ x))
      → M t n (n', next)
  pushed-Moves t next k x n n' e read c own =
      spared codec db max_retries q i t n n' next
        (subst (SparesIt n.redis) (sym e) (lpush-Spares codec db max_retries q i k x n.redis)) read
        c
        (λ holds.
          let (a, b) = own holds in
          inl (
            rw e (
              at_same (λ u v. IsPending codec db max_retries q i (db.lpush u v n.redis))
                (pending_key q) k i x a b (lpush_self codec db max_retries q i n.redis))))

  pub added-Moves :
      (r j : String) (d : ℕ) (n n' : QueueNode db.Store)
      → n'.redis ≡ db.zadd (in_flight_key r) j d n.redis
      → R n.redis
      → M (consuming_add r j d) n (n', none)
  unfolding Holds
  added-Moves r j d n n' e read =
      spared codec db max_retries q i (consuming_add r j d) n n' none
        (subst (SparesIt n.redis) (sym e)
          (zadd-Spares codec db max_retries q i (in_flight_key r) j d n.redis))
        read (ended codec db max_retries q i)
        (λ (a, b). inr (
          inl (
            rw e (
              at_same
                (λ u v. IsFlying codec db max_retries q i (db.zadd (in_flight_key u) v d n.redis)) q
                r i j a b (zadd_self codec db max_retries q i d n.redis)))))

  -- The commands that take an id out of a set: what follows if it is the message's own is an argument.
  pub removed-Moves :
      (t : Task J) (next : Option (Task J)) (key r j : String) (n n' : QueueNode db.Store)
      → n'.redis ≡ db.zrem key j n.redis
      → R n.redis
      → ((t' : Task J) → next ≡ some t' → C t')
      → ((q ≢ r) ⊎ (i ≢ j) → (in_flight_key q ≢ key) ⊎ (i ≢ j))
      → (q ≡ r
          → i ≡ j
          → Lands codec db max_retries q i (n', next) ⊎ GivesUp codec db max_retries q i t)
      → (Holds codec db max_retries q i t → ⊥)
      → M t n (n', next)
  removed-Moves t next key r j n n' e read c apart own free = record {
    reads = rw e (
        let (m, held) = read in
        (
          m,
          Held-same codec db max_retries q i n.redis (db.zrem key j n.redis) m
              (db.hgetall-zrem (msg_key q i) key j n.redis) held,
        ));
    carried = c;
    from_list = λ p. inl (rw e (rw (db.list-zrem (pending_key q) key j n.redis) p));
    from_set = λ f. elim (same_or_apart q r i j) [
      | inl (a, b) ↦ own a b
      | inr d ↦ inl (
          inr
            (inl (rw e ((zrem-Spares codec db max_retries q i key j n.redis (apart d)).flying f))))
    ];
    from_task = λ x. absurd (free x);
  }
