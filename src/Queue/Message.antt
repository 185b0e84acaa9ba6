-- ===== src/Queue/Message.antt =====
-- `Message` of src/nodes/queue_node.py, and what becomes of one in the store. A field is of any type,
-- as nothing in the source checks it. A payload that is an object or a list is of a type `J`. The
-- numbers that the node itself writes are counts and clock readings, the latter in whole units.
use text.Mathlib.Text.{find?}
use distributed_sync_system.Base.{
  ℕ, ◌≡◌, Bool, true, false, Option, none, some, List, [], ◌∷◌, String, Dict, lookup, contains,
  if◌then◌else◌, Outcome, returned, raised, type_error, ◌&&◌, suc, leb,
}

pub data MessageStatus : Type 0 where
  pending in_flight completed failed : MessageStatus

unfoldable pub value_of : MessageStatus → String
value_of pending = "pending"
value_of in_flight = "in_flight"
value_of completed = "completed"
value_of failed = "failed"

pub data Value (J : Type 0) : Type 0 where
  str : String → Value J
  integer : ℕ → Value J
  real : ℕ → Value J
  flag : Bool → Value J
  nothing : Value J
  structure : J → Value J

-- Python's `json`, `str`, `int` and `float` as the code uses them. A text that does not parse is
-- `none`.
pub record Codec (J : Type 0) : Type 0 where
  pub dumps : J → String
  pub loads : String → Option (Value J)
  pub str_structure : J → String
  pub str_integer : ℕ → String
  pub str_real : ℕ → String
  pub int_of : String → Option (Value J)
  pub float_of : String → Option (Value J)
  pub loads-dumps : (j : J) → loads (dumps j) ≡ some (structure j)
  pub loads-str_integer : (n : ℕ) → loads (str_integer n) ≡ some (integer n)
  pub loads-str_real : (n : ℕ) → loads (str_real n) ≡ some (real n)
  -- The words for a status are no JSON and no numbers.
  pub loads-status : (s : MessageStatus) → loads (value_of s) ≡ none
  pub int_of-status : (s : MessageStatus) → int_of (value_of s) ≡ none
  pub float_of-status : (s : MessageStatus) → float_of (value_of s) ≡ none

pub record Message (J : Type 0) : Type 0 where
  pub message_id : Value J
  pub queue : Value J
  pub payload : Value J
  pub producer_id : Value J
  pub status : Value J
  pub created_at : Value J
  pub delivered_at : Value J
  pub retry_count : Value J
  pub ack_deadline : Value J

abbrev pub field_names : List String
field_names =
    "message_id" ∷ "queue" ∷ "payload" ∷ "producer_id" ∷ "status" ∷ "created_at" ∷ "delivered_at"
    ∷ "retry_count" ∷ "ack_deadline" ∷ []

module _ {J : Type 0} where
  unfoldable pub to_dict : Message J → Dict (Value J)
  to_dict m =
      ("message_id", m.message_id)
      ∷ ("queue", m.queue)
      ∷ ("payload", m.payload)
      ∷ ("producer_id", m.producer_id)
      ∷ ("status", m.status)
      ∷ ("created_at", m.created_at)
      ∷ ("delivered_at", m.delivered_at)
      ∷ ("retry_count", m.retry_count)
      ∷ ("ack_deadline", m.ack_deadline)
      ∷ []

  unfoldable pub all_known : Dict (Value J) → Bool
  all_known [] = true
  all_known ((k, v) ∷ d) = contains k field_names && all_known d

  unfoldable pub or_else : Value J → Option (Value J) → Value J
  or_else v none = v
  or_else v (some w) = w

  -- `cls(**d)` for the values of the four fields without a default.
  unfoldable pub with_required :
      Option (Value J)
      → Option (Value J)
      → Option (Value J)
      → Option (Value J)
      → Dict (Value J)
      → Outcome (Message J)
  unfolding or_else value_of
  with_required (some i) (some q) (some p) (some a) d = returned (record {
    message_id = i;
    queue = q;
    payload = p;
    producer_id = a;
    status = or_else (str (value_of pending)) (lookup "status" d);
    created_at = or_else (real 0) (lookup "created_at" d);
    delivered_at = or_else (real 0) (lookup "delivered_at" d);
    retry_count = or_else (integer 0) (lookup "retry_count" d);
    ack_deadline = or_else (real 0) (lookup "ack_deadline" d);
  })
  with_required _ _ _ _ d = raised type_error

  unfoldable pub from_dict : Dict (Value J) → Outcome (Message J)
  unfolding all_known with_required
  from_dict d =
      if all_known d
      then with_required (lookup "message_id" d) (lookup "queue" d) (lookup "payload" d)
          (lookup "producer_id" d) d
      else raised type_error

  -- `retry_count >= n`, and `retry_count + 1`: a boolean counts as 0 or 1.
  unfoldable pub at_least : ℕ → Value J → Outcome Bool
  at_least n (integer m) = returned (leb n m)
  at_least n (real m) = returned (leb n m)
  at_least n (flag b) = returned (leb n (if b then 1 else 0))
  at_least n _ = raised type_error

  unfoldable pub plus_one : Value J → Value J
  plus_one (integer m) = integer (suc m)
  plus_one (real m) = real (suc m)
  plus_one (flag b) = integer (suc (if b then 1 else 0))
  plus_one v = v

module _ {J : Type 0} (codec : Codec J) where
  -- `str(v)`, and an f-string.
  unfoldable pub str_of : Value J → String
  str_of (str t) = t
  str_of (integer n) = codec.str_integer n
  str_of (real n) = codec.str_real n
  str_of (flag true) = "True"
  str_of (flag false) = "False"
  str_of nothing = "None"
  str_of (structure j) = codec.str_structure j

  unfoldable pub flatten_value : Value J → String
  unfolding str_of
  flatten_value (structure j) = codec.dumps j
  flatten_value v = str_of v

  unfoldable pub flatten : Dict (Value J) → Dict String
  unfolding flatten_value
  flatten [] = []
  flatten ((k, v) ∷ d) = (k, flatten_value v) ∷ flatten d

  -- `float(v) if "." in v else int(v)`, and the text itself on a ValueError.
  unfoldable pub as_number : String → Value J
  as_number v =
      let parsed : Option (Value J) = elim (find? v ".") [
        | some _ ↦ codec.float_of v
        | none ↦ codec.int_of v
      ] in
      elim parsed [ some x ↦ x | none ↦ str v ]

  unfoldable pub unflatten_value : String → Value J
  unfolding as_number
  unflatten_value v = elim (codec.loads v) [ some x ↦ x | none ↦ as_number v ]

  unfoldable pub unflatten : Dict String → Dict (Value J)
  unfolding unflatten_value
  unflatten [] = []
  unflatten ((k, v) ∷ d) = (k, unflatten_value v) ∷ unflatten d
