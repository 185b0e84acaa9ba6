-- ===== src/Queue/Order/Matching.antt =====
-- What a call of src/nodes/queue_node.py leaves of the agreement with the first-in first-out queue.
use Prim.Native.String.{◌++◌}
use text.Mathlib.TextLemmas.{append_cancel_left}
use distributed_sync_system.Base.{
  ℕ, ◌≡◌, ◌≢◌, refl, sym, ap, ◌∙◌, subst, true, false, List, [], ◌∷◌, map, String, All, contains,
  Distinct, str_dec, if_pos, if_neg, arith, returned,
}
use distributed_sync_system.Queue.Keys.{msg_key, pending_key, in_flight_key}
use distributed_sync_system.Queue.Store.{Redis, update, but_last}
use distributed_sync_system.Queue.Message.{
  Codec, Message, to_dict, flatten, str_of, from_dict, unflatten, all_known,
}
use distributed_sync_system.Queue.Node.{QueueNode, store_message, deliver, mark_in_flight}
use distributed_sync_system.Queue.Stored.{AllStorable, from_dict-saved}
use distributed_sync_system.Queue.Order.{
  but_last-map, All-but_last, contains-but_last_of, but_last-Distinct, All-map,
}

msg_key_id : (q i j : String) → msg_key q i ≡ msg_key q j → i ≡ j
unfolding msg_key
msg_key_id q i j e = append_cancel_left ":msg:" i j (
    append_cancel_left q (":msg:" ++ i) (":msg:" ++ j)
      (append_cancel_left "queue:" (q ++ (":msg:" ++ i)) (q ++ (":msg:" ++ j)) e))

module _ {J : Type 0} (codec : Codec J) (db : Redis) (q : String) where
  abbrev pub id_of : Message J → String
  id_of m = str_of codec m.message_id

  -- Nothing is stored under the message's key.
  abbrev pub IsNew : db.Store → Message J → Type 0
  IsNew s m = db.hgetall (msg_key q (id_of m)) s ≡ []

  -- The node would read the message.
  abbrev pub Reads : db.Store → Message J → Type 0
  Reads s m = from_dict (unflatten codec (db.hgetall (msg_key q (id_of m)) s)) ≡ returned m

  -- A message for the queue that can be stored, under an id.
  abbrev pub Fits : Message J → Type 0
  Fits m = (str_of codec m.queue ≡ q) × (id_of m ≢ "") × AllStorable codec m

  abbrev pub ids : List (Message J) → List String
  ids = map id_of

  -- The node's list is the specification's, and the node can read what waits.
  pub record Matches (ms : List (Message J)) (ps : List (Message J)) (s : db.Store) : Type 0 where
    pub listed : db.list (pending_key q) s ≡ ids ms
    pub read : All (Reads s) ms
    pub fit : All Fits ms
    pub new : All (IsNew s) ps
    pub apart : (x : String) → contains x (ids ms) ≡ true → contains x (ids ps) ≡ false
    pub once : Distinct (ids ms)

  -- A change of another hash leaves alone what is known of these.
  others_kept :
      (P : List (String × String) → Message J → Type 0) (k : String) (s s' : db.Store)
      → ((j : String) → j ≢ k → db.hgetall (msg_key q j) s' ≡ db.hgetall (msg_key q j) s)
      → (ms : List (Message J)) → contains k (ids ms) ≡ false
      → All (λ m. P (db.hgetall (msg_key q (id_of m)) s) m) ms
      → All (λ m. P (db.hgetall (msg_key q (id_of m)) s') m) ms
  unfolding contains
  others_kept P k s s' same [] c all = tt
  others_kept P k s s' same (m ∷ ms) c all = (
    subst (λ h. P h m) (sym (same (id_of m) (λ e. ground (arith, c, e)))) all.0,
    others_kept P k s s' same ms (ground (arith, c)) all.1,
  )

  hset_elsewhere :
      (k j : String) (fields : List (String × String)) (s : db.Store)
      → j ≢ k
      → db.hgetall (msg_key q j) (db.hset (msg_key q k) fields s) ≡ db.hgetall (msg_key q j) s
  hset_elsewhere k j fields s other =
      db.hgetall-hset (msg_key q j) (msg_key q k) fields s
      ∙ if_neg (str_dec (msg_key q j) (msg_key q k)) (λ e. other (msg_key_id q j k e)) _ _

  pub put-Matches :
      (m : Message J) (ps : List (Message J)) (ms : List (Message J)) (n : QueueNode db.Store)
      → Fits m
      → Distinct (ids (m ∷ ps))
      → Matches ms (m ∷ ps) n.redis
      → Matches (m ∷ ms) ps (store_message codec db m n).redis
  unfolding store_message contains all_known unflatten
  put-Matches m ps ms n (e, id, a) d w =
      let i = id_of m in
      let fields = flatten codec (to_dict m) in
      let saved = db.hset (msg_key q i) fields n.redis in
      let pushed = db.lpush (pending_key q) i saved in
      let final = db.expire (msg_key q i) 86400 pushed in
      let hash : (j : String) → db.hgetall (msg_key q j) final ≡ db.hgetall (msg_key q j) saved =
        λ j.
          db.hgetall-expire (msg_key q j) (msg_key q i) 86400 pushed
          ∙ db.hgetall-lpush (msg_key q j) (pending_key q) i saved in
      let same : (j : String)
          → j ≢ i
          → db.hgetall (msg_key q j) final ≡ db.hgetall (msg_key q j) n.redis =
        λ j o. hash j ∙ hset_elsewhere i j fields n.redis o in
      let absent : contains i (ids ms) ≡ false = ground (arith, w.apart i) in
      let own : db.hgetall (msg_key q i) final ≡ update fields [] =
        hash i
        ∙ db.hgetall-hset (msg_key q i) (msg_key q i) fields n.redis
        ∙ if_pos (str_dec (msg_key q i) (msg_key q i)) refl _ _
        ∙ ap (update fields) w.new.0 in
      rw e (record {
        listed = ground (
          arith,
          w.listed,
          db.list-expire (pending_key q) (msg_key q i) 86400 pushed,
          db.list-lpush (pending_key q) (pending_key q) i saved,
          db.list-hset (pending_key q) (msg_key q i) fields n.redis,
        );
        read = (
          rw own (from_dict-saved codec m [] a refl),
          others_kept (λ h x. from_dict (unflatten codec h) ≡ returned x) i n.redis final same ms
              absent w.read,
        );
        fit = ((e, id, a), w.fit);
        new = others_kept (λ h x. h ≡ []) i n.redis final same ps d.0 w.new.1;
        apart = λ x c. ground (arith, c, d.0, w.apart x);
        once = (absent, w.once);
      })

  abbrev pub rest_of : QueueNode db.Store → QueueNode db.Store
  rest_of n = record n { redis = (db.rpop (pending_key q) n.redis).0 }

  pub pop-Matches :
      (ps : List (Message J)) (ms : List (Message J)) (n : QueueNode db.Store)
      → Matches ms ps n.redis
      → Matches (but_last ms) ps (rest_of n).redis
  pop-Matches ps ms n w =
      let s' = (rest_of n).redis in
      let same : (j : String) → db.hgetall (msg_key q j) s' ≡ db.hgetall (msg_key q j) n.redis =
        λ j. db.hgetall-rpop (msg_key q j) (pending_key q) n.redis in
      let less : ids (but_last ms) ≡ but_last (ids ms) = sym (but_last-map id_of ms) in
      record {
        listed =
            db.list-rpop (pending_key q) (pending_key q) n.redis
            ∙ if_pos (str_dec (pending_key q) (pending_key q)) refl _ _
            ∙ ap but_last w.listed
            ∙ sym less;
        read =
            All-but_last (Reads s') ms
              (All-map (Reads n.redis) (Reads s') (λ m r. rw (same (id_of m)) r) ms w.read);
        fit = All-but_last Fits ms w.fit;
        new = All-map (IsNew n.redis) (IsNew s') (λ m e. same (id_of m) ∙ e) ps w.new;
        apart = λ x c. w.apart x (contains-but_last_of x (ids ms) (rw less at c));
        once = rw less (but_last-Distinct (ids ms) w.once);
      }

  pub deliver-Matches :
      (now deadline : ℕ) (m : Message J) (ps : List (Message J)) (ms : List (Message J))
      (n : QueueNode db.Store)
      → contains (id_of m) (ids ms) ≡ false
      → contains (id_of m) (ids ps) ≡ false
      → Matches ms ps n.redis
      → Matches ms ps (deliver codec db q (id_of m) now deadline m n).redis
  unfolding deliver
  deliver-Matches now deadline m ps ms n c d w =
      let i = id_of m in
      let fields = flatten codec (to_dict (mark_in_flight now deadline m)) in
      let saved = db.hset (msg_key q i) fields n.redis in
      let final = db.zadd (in_flight_key q) i deadline saved in
      let same : (j : String)
          → j ≢ i
          → db.hgetall (msg_key q j) final ≡ db.hgetall (msg_key q j) n.redis =
        λ j o.
          db.hgetall-zadd (msg_key q j) (in_flight_key q) i deadline saved
          ∙ hset_elsewhere i j fields n.redis o in
      record {
        listed =
            db.list-zadd (pending_key q) (in_flight_key q) i deadline saved
            ∙ db.list-hset (pending_key q) (msg_key q i) fields n.redis
            ∙ w.listed;
        read =
            others_kept (λ h x. from_dict (unflatten codec h) ≡ returned x) i n.redis final same ms
              c w.read;
        fit = w.fit;
        new = others_kept (λ h x. h ≡ []) i n.redis final same ps d w.new;
        apart = w.apart;
        once = w.once;
      }
