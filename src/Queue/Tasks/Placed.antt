-- ===== src/Queue/Tasks/Placed.antt =====
-- Where a message of src/nodes/queue_node.py is between the awaits of the calls: on the list, in flight, or
-- with a task that has taken it off and has yet to put it back.
use mathlib.Core.Option.{some-injective}
use distributed_sync_system.Base.{
  ℕ, ◌≡◌, ◌≢◌, ◌⊎◌, inl, inr, refl, true, false, Option, none, some, [], ◌∷◌, String, Dict,
  returned, subst,
}
use distributed_sync_system.Queue.Keys.{queue_of, has_colon}
use distributed_sync_system.Queue.Store.{Redis}
use distributed_sync_system.Queue.Message.{Codec, Message, from_dict, at_least, unflatten, str_of}
use distributed_sync_system.Queue.Reads.{unread}
use distributed_sync_system.Queue.Node.{QueueNode}
use distributed_sync_system.Queue.Stored.{AllStorable}
use distributed_sync_system.Queue.Kept.{Held, Tries, Held-same, Spares, IsPending, IsFlying}
use distributed_sync_system.Queue.Kept.Handlers.{}
use distributed_sync_system.Queue.Tasks.{
  Task, storing_save, storing_push, storing_expire, consuming_pop, consuming_read, consuming_save,
  consuming_add, acknowledging_mark, acknowledging_remove, checking, failing_save, failing_remove,
  again_save, again_remove, again_push, found_message,
}

module _ {J : Type 0} (codec : Codec J) (db : Redis) (max_retries : ℕ) (q i : String) where
  -- The node reads a message under the id, whose fields the store gives back.
  abbrev pub Readable : db.Store → Type 0
  Readable s = (m : Message J) × Held codec db max_retries q i s m

  -- A message that is saved under the id can be stored.
  abbrev pub Fine : String → String → Message J → Type 0
  Fine r j m = q ≡ r → i ≡ j → AllStorable codec m × Tries codec db max_retries q i m

  -- What a task works with: queues whose names have no colon, messages that can be stored where they are
  -- saved under the id, and no acknowledgement of it.
  unfoldable pub Carries : Task J → Type 0
  Carries (storing_save m) =
      (has_colon (str_of codec m.queue) ≡ false)
      × Fine (str_of codec m.queue) (str_of codec m.message_id) m
  Carries (storing_push m) = Unit {0}
  Carries (storing_expire m) = Unit {0}
  Carries (consuming_pop r a) = has_colon r ≡ false
  Carries (consuming_read r j a) = has_colon r ≡ false
  Carries (consuming_save r j d m) = (has_colon r ≡ false) × Fine r j m
  Carries (consuming_add r j d) = Unit {0}
  Carries (acknowledging_mark r j) = (has_colon r ≡ false) × ((q ≢ r) ⊎ (i ≢ j))
  Carries (acknowledging_remove r j) = (has_colon r ≡ false) × ((q ≢ r) ⊎ (i ≢ j))
  Carries (checking key r j) = queue_of key ≡ returned r
  Carries (failing_save key r j m) =
      (queue_of key ≡ returned r)
      × Fine r j m
      × (at_least max_retries m.retry_count ≡ returned true)
  Carries (failing_remove key r j m) =
      (queue_of key ≡ returned r) × (at_least max_retries m.retry_count ≡ returned true)
  Carries (again_save key r j m) = (queue_of key ≡ returned r) × Fine r j m
  Carries (again_remove key r j) = queue_of key ≡ returned r
  Carries (again_push r j) = Unit {0}

  -- The task has taken the id off the list or out of the set of those in flight, and has yet to put it back.
  unfoldable pub Holds : Task J → Type 0
  Holds (consuming_read r j a) = (q ≡ r) × (i ≡ j)
  Holds (consuming_save r j d m) = (q ≡ r) × (i ≡ j)
  Holds (consuming_add r j d) = (q ≡ r) × (i ≡ j)
  Holds (again_push r j) = (q ≡ r) × (i ≡ j)
  Holds _ = ⊥

  -- The task takes the id out of the set for good, having its message with the retries used up.
  unfoldable pub GivesUp : Task J → Type 0
  GivesUp (failing_remove key r j m) =
      (q ≡ r) × (i ≡ j) × (at_least max_retries m.retry_count ≡ returned true)
  GivesUp _ = ⊥

  -- Where it is after a command of a task, as far as the store and that task go.
  abbrev pub Lands : QueueNode db.Store × Option (Task J) → Type 0
  Lands (n, next) =
      IsPending codec db max_retries q i n.redis
      ⊎ (IsFlying codec db max_retries q i n.redis ⊎ ((t : Task J) × (next ≡ some t) × Holds t))

  pub record Moves (t : Task J) (n : QueueNode db.Store)
      (out : QueueNode db.Store × Option (Task J)) : Type 0 where
    pub reads : Readable out.0.redis
    pub carried : (t' : Task J) → out.1 ≡ some t' → Carries t'
    pub from_list : IsPending codec db max_retries q i n.redis → Lands out
    pub from_set : IsFlying codec db max_retries q i n.redis → Lands out ⊎ GivesUp t
    pub from_task : Holds t → Lands out

  pub Readable-Spares :
      (s s' : db.Store) → Spares codec db max_retries q i s s' → Readable s → Readable s'
  Readable-Spares s s' x (m, h) = (m, Held-same codec db max_retries q i s s' m x.hash h)

  -- A command that spares the message, of a task that does not hold it.
  pub spared :
      (t : Task J) (n n' : QueueNode db.Store) (next : Option (Task J))
      → Spares codec db max_retries q i n.redis n'.redis
      → Readable n.redis
      → ((t' : Task J) → next ≡ some t' → Carries t')
      → (Holds t → Lands (n', next))
      → Moves t n (n', next)
  spared t n n' next x h c held = record {
    reads = Readable-Spares n.redis n'.redis x h;
    carried = c;
    from_list = λ p. inl (x.listed p);
    from_set = λ f. inl (inr (inl (x.flying f)));
    from_task = held;
  }

  pub one : (P : Task J → Type 0) (t t' : Task J) → some t ≡ some t' → P t → P t'
  one P t t' e p = subst P (some-injective t t' e) p

  pub ended : (t' : Task J) → none ≡ some t' → Carries t'
  ended t' e = absurd (cc e)

  pub found_read :
      (d : Dict String) (m : Message J)
      → from_dict (unflatten codec d) ≡ returned m
      → found_message codec db max_retries d ≡ some m
  unfolding found_message
  found_read [] m h = absurd (unread codec m h)
  found_read (x ∷ xs) m h = rw (h, found_message) refl
