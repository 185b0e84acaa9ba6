-- ===== src/Queue/Stored.antt =====
-- What the store gives back of a message: the reverse of `_flatten` by `_unflatten`.

use distributed_sync_system.Queue.Node.{mark_in_flight}
use distributed_sync_system.Queue.Redeliver.{again, failing}
use distributed_sync_system.Queue.Message.{
  MessageStatus, pending, in_flight, failed, value_of, plus_one, field_names,
}
use distributed_sync_system.Base.{
  inl, inr, Bool-cases, ℕ, lookup-insert, ◌∙◌, ap, ◌≡◌, refl, Option, none, some, [], ◌∷◌, String,
  Dict, insert, lookup, arith, returned, str_dec, true, contains,
}
use distributed_sync_system.Queue.Store.{update}
use distributed_sync_system.Queue.Message.{
  Value, str, integer, real, flag, nothing, structure, Codec, Message, to_dict, from_dict,
  all_known, with_required, or_else, str_of, flatten_value, flatten, as_number, unflatten_value,
  unflatten,
}

-- No field is written twice.
abbrev Once : Dict String → Type 0
Once [] = Unit {0}
Once ((k, v) ∷ fields) = (lookup k fields ≡ none) × Once fields

module _ {J : Type 0} (codec : Codec J) where
  -- A text that reads neither as JSON nor as a number.
  abbrev pub IsPlain : String → Type 0
  IsPlain t = (codec.loads t ≡ none) × (codec.int_of t ≡ none) × (codec.float_of t ≡ none)

  -- The values that have their own text: neither None nor a boolean nor a text that reads as another.
  abbrev pub Storable : Value J → Type 0
  Storable (str t) = IsPlain t
  Storable (integer n) = Unit {0}
  Storable (real n) = Unit {0}
  Storable (structure j) = Unit {0}
  Storable (flag b) = ⊥
  Storable nothing = ⊥

  pub unflatten_value-flatten_value :
      (v : Value J) → Storable v → unflatten_value codec (flatten_value codec v) ≡ v
  unfolding unflatten_value flatten_value str_of as_number
  unflatten_value-flatten_value (str t) h = ground (arith, h)
  unflatten_value-flatten_value (integer n) h = ground (arith, codec.loads-str_integer n)
  unflatten_value-flatten_value (real n) h = ground (arith, codec.loads-str_real n)
  unflatten_value-flatten_value (structure j) h = ground (arith, codec.loads-dumps j)
  unflatten_value-flatten_value (flag b) h = absurd h
  unflatten_value-flatten_value nothing h = absurd h

  pub record AllStorable (m : Message J) : Type 0 where
    pub of_message_id : Storable m.message_id
    pub of_queue : Storable m.queue
    pub of_payload : Storable m.payload
    pub of_producer_id : Storable m.producer_id
    pub of_status : Storable m.status
    pub of_created_at : Storable m.created_at
    pub of_delivered_at : Storable m.delivered_at
    pub of_retry_count : Storable m.retry_count
    pub of_ack_deadline : Storable m.ack_deadline

  unfoldable map_value : Option String → Option (Value J)
  map_value none = none
  map_value (some v) = some (unflatten_value codec v)

  lookup-unflatten :
      (k : String) (h : Dict String) → lookup k (unflatten codec h) ≡ map_value (lookup k h)
  unfolding lookup unflatten map_value
  lookup-unflatten k [] = refl
  lookup-unflatten k ((j, v) ∷ h) = ground (arith, lookup-unflatten k h)

  all_known-insert :
      (k v : String) (h : Dict String)
      → contains k field_names ≡ true
      → all_known (unflatten codec h) ≡ true
      → all_known (unflatten codec (insert k v h)) ≡ true
  unfolding all_known unflatten insert
  all_known-insert k v [] c h = ground (arith, c)
  all_known-insert k v ((j, w) ∷ d) c h = ground (arith, c, all_known-insert k v d c)

  all_known-update :
      (fields h : Dict String)
      → all_known (unflatten codec fields) ≡ true
      → all_known (unflatten codec h) ≡ true
      → all_known (unflatten codec (update fields h)) ≡ true
  unfolding all_known unflatten update
  all_known-update [] h f g = g
  all_known-update ((k, v) ∷ fields) h f g =
      all_known-update fields (insert k v h) (ground (arith, f))
        (all_known-insert k v h (ground (arith, f)) g)

  lookup-update_absent :
      (k : String) (fields h : Dict String)
      → lookup k fields ≡ none
      → lookup k (update fields h) ≡ lookup k h
  unfolding lookup update
  lookup-update_absent k [] h e = refl
  lookup-update_absent k ((j, v) ∷ fields) h e =
      ground (arith, e, lookup-update_absent k fields (insert j v h), lookup-insert j k v h)

  lookup-update :
      (k : String) (fields h : Dict String) (v : String)
      → Once fields
      → lookup k fields ≡ some v
      → lookup k (update fields h) ≡ some v
  unfolding lookup update
  lookup-update k [] h v o e = absurd (cc)
  lookup-update k ((j, w) ∷ fields) h v o e = elim (str_dec k j) [
    | yes p ↦
        ground (arith, o, e, lookup-update_absent k fields (insert j w h), lookup-insert j k w h)
    | no p ↦ ground (arith, o, e, lookup-update k fields (insert j w h) v)
  ]

  lookup-flatten :
      (k : String) (d : Dict (Value J)) (v : Value J)
      → lookup k d ≡ some v
      → lookup k (flatten codec d) ≡ some (flatten_value codec v)
  unfolding lookup flatten
  lookup-flatten k [] v e = absurd (cc)
  lookup-flatten k ((j, w) ∷ d) v e = ground (arith, e, lookup-flatten k d v)

  flatten-Once : (m : Message J) → Once (flatten codec (to_dict m))
  unfolding flatten to_dict lookup str_dec
  flatten-Once m = (refl, (refl, (refl, (refl, (refl, (refl, (refl, (refl, (refl, tt)))))))))

  flatten_known : (m : Message J) → all_known (unflatten codec (flatten codec (to_dict m))) ≡ true
  unfolding flatten unflatten to_dict all_known contains str_dec
  flatten_known m = refl

  module _ (m : Message J) (old : Dict String) where
    abbrev saved : Dict (Value J)
    saved = unflatten codec (update (flatten codec (to_dict m)) old)

    field :
        (k : String) (v : Value J)
        → lookup k (to_dict m) ≡ some v
        → Storable v
        → lookup k saved ≡ some v
    unfolding map_value
    field k v e s =
        lookup-unflatten k (update (flatten codec (to_dict m)) old)
        ∙ ap map_value (
            lookup-update k (flatten codec (to_dict m)) old (flatten_value codec v) (flatten-Once m)
              (lookup-flatten k (to_dict m) v e))
        ∙ ap some (unflatten_value-flatten_value v s)

    -- A message that is saved over a hash of the same fields is what the node then reads.
    pub from_dict-saved :
        AllStorable m → all_known (unflatten codec old) ≡ true → from_dict saved ≡ returned m
    unfolding from_dict with_required or_else to_dict lookup str_dec
    from_dict-saved s k =
        let known = all_known-update (flatten codec (to_dict m)) old (flatten_known m) k in
        let f_i = field "message_id" m.message_id refl s.of_message_id in
        let f_q = field "queue" m.queue refl s.of_queue in
        let f_p = field "payload" m.payload refl s.of_payload in
        let f_a = field "producer_id" m.producer_id refl s.of_producer_id in
        let f_s = field "status" m.status refl s.of_status in
        let f_c = field "created_at" m.created_at refl s.of_created_at in
        let f_d = field "delivered_at" m.delivered_at refl s.of_delivered_at in
        let f_r = field "retry_count" m.retry_count refl s.of_retry_count in
        let f_t = field "ack_deadline" m.ack_deadline refl s.of_ack_deadline in
        ground (arith, known, f_i, f_q, f_p, f_a, f_s, f_c, f_d, f_r, f_t)

  pub from_dict_known :
      (d : Dict (Value J)) (m : Message J) → from_dict d ≡ returned m → all_known d ≡ true
  unfolding from_dict
  from_dict_known d m e = elim (Bool-cases (all_known d)) [
    | inl t ↦ t
    | inr f ↦ absurd (ground arith)
  ]

  -- The statuses can be stored, and so can what a delivery and a redelivery make of a message.
  status-IsPlain : (s : MessageStatus) → IsPlain (value_of s)
  status-IsPlain s = (codec.loads-status s, codec.int_of-status s, codec.float_of-status s)

  plus_one-Storable : (v : Value J) → Storable v → Storable (plus_one v)
  unfolding plus_one
  plus_one-Storable (str t) s = s
  plus_one-Storable (integer n) s = tt
  plus_one-Storable (real n) s = tt
  plus_one-Storable (structure j) s = tt
  plus_one-Storable (flag b) s = absurd s
  plus_one-Storable nothing s = absurd s

  pub mark_in_flight-AllStorable :
      (now deadline : ℕ) (m : Message J)
      → AllStorable m
      → AllStorable (mark_in_flight now deadline m)
  unfolding mark_in_flight
  mark_in_flight-AllStorable now deadline m a = record {
    of_message_id = a.of_message_id;
    of_queue = a.of_queue;
    of_payload = a.of_payload;
    of_producer_id = a.of_producer_id;
    of_status = status-IsPlain in_flight;
    of_created_at = a.of_created_at;
    of_delivered_at = tt;
    of_retry_count = a.of_retry_count;
    of_ack_deadline = tt;
  }

  pub again-AllStorable : (m : Message J) → AllStorable m → AllStorable (again m)
  unfolding again
  again-AllStorable m a = record {
    of_message_id = a.of_message_id;
    of_queue = a.of_queue;
    of_payload = a.of_payload;
    of_producer_id = a.of_producer_id;
    of_status = status-IsPlain pending;
    of_created_at = a.of_created_at;
    of_delivered_at = a.of_delivered_at;
    of_retry_count = plus_one-Storable m.retry_count a.of_retry_count;
    of_ack_deadline = a.of_ack_deadline;
  }

  pub failing-AllStorable : (m : Message J) → AllStorable m → AllStorable (failing m)
  unfolding failing
  failing-AllStorable m a = record {
    of_message_id = a.of_message_id;
    of_queue = a.of_queue;
    of_payload = a.of_payload;
    of_producer_id = a.of_producer_id;
    of_status = status-IsPlain failed;
    of_created_at = a.of_created_at;
    of_delivered_at = a.of_delivered_at;
    of_retry_count = a.of_retry_count;
    of_ack_deadline = a.of_ack_deadline;
  }
