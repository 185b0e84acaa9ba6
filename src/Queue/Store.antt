-- ===== src/Queue/Store.antt =====
-- What src/nodes/queue_node.py uses of Redis: an interface with the documented effect of each command.
-- `list` is LRANGE 0 -1 and `scores` a sorted set with its scores, in any order; both exist to state
-- the laws. A key that does not exist has an empty hash, list or set.
use distributed_sync_system.Base.{
  ℕ, ◌≡◌, Bool, Option, none, some, List, [], ◌∷◌, String, Dict, insert, lookup, contains, ite,
  str_dec, leb, true, ◌≢◌,
}
use distributed_sync_system.Queue.Keys.{in_flight_key}

-- `HSET key field value [field value ...]`
unfoldable pub update : Dict String → Dict String → Dict String
update [] d = d
update ((k, v) ∷ fields) d = update fields (insert k v d)

module _ {ℓ} {A : Type ℓ} where
  -- RPOP takes the last of the list.
  unfoldable pub last_of : List A → Option A
  last_of [] = none
  last_of (x ∷ []) = some x
  last_of (x ∷ y ∷ xs) = last_of (y ∷ xs)

  unfoldable pub but_last : List A → List A
  but_last [] = []
  but_last (x ∷ []) = []
  but_last (x ∷ y ∷ xs) = x ∷ but_last (y ∷ xs)

unfoldable pub is_due : ℕ → Option ℕ → Bool
is_due now none = Bool.false
is_due now (some score) = leb score now

pub record Redis : Type 1 where
  pub Store : Type 0
  pub hset : String → Dict String → Store → Store
  pub hgetall : String → Store → Dict String
  -- The time at which the key goes is not a part of the model.
  pub expire : String → ℕ → Store → Store
  pub lpush : String → String → Store → Store
  pub rpop : String → Store → Store × Option String
  pub zadd : String → String → ℕ → Store → Store
  pub zrem : String → String → Store → Store
  -- ZRANGEBYSCORE key -inf max
  pub zrangebyscore : String → ℕ → Store → List String
  -- The keys of the patterns "queue:*:pending" and "queue:*:in_flight".
  pub keys_pending : Store → List String
  pub keys_in_flight : Store → List String
  pub llen : String → Store → ℕ
  pub zcard : String → Store → ℕ
  pub list : String → Store → List String
  pub scores : String → Store → Dict ℕ
  -- A command changes the value of its own key, and of no other kind.
  pub hgetall-hset :
      (j k : String) (fields : Dict String) (s : Store)
      → hgetall j (hset k fields s) ≡ ite (str_dec j k) (update fields (hgetall k s)) (hgetall j s)
  pub hgetall-expire : (j k : String) (t : ℕ) (s : Store) → hgetall j (expire k t s) ≡ hgetall j s
  pub hgetall-lpush : (j k x : String) (s : Store) → hgetall j (lpush k x s) ≡ hgetall j s
  pub hgetall-rpop : (j k : String) (s : Store) → hgetall j (rpop k s).0 ≡ hgetall j s
  pub hgetall-zadd : (j k x : String) (t : ℕ) (s : Store) → hgetall j (zadd k x t s) ≡ hgetall j s
  pub hgetall-zrem : (j k x : String) (s : Store) → hgetall j (zrem k x s) ≡ hgetall j s
  pub list-hset :
      (j k : String) (fields : Dict String) (s : Store) → list j (hset k fields s) ≡ list j s
  pub list-expire : (j k : String) (t : ℕ) (s : Store) → list j (expire k t s) ≡ list j s
  pub list-lpush :
      (j k x : String) (s : Store)
      → list j (lpush k x s) ≡ ite (str_dec j k) (x ∷ list k s) (list j s)
  pub list-rpop :
      (j k : String) (s : Store)
      → list j (rpop k s).0 ≡ ite (str_dec j k) (but_last (list k s)) (list j s)
  pub list-zadd : (j k x : String) (t : ℕ) (s : Store) → list j (zadd k x t s) ≡ list j s
  pub list-zrem : (j k x : String) (s : Store) → list j (zrem k x s) ≡ list j s
  pub rpop_last : (k : String) (s : Store) → (rpop k s).1 ≡ last_of (list k s)
  pub scores-hset :
      (j k : String) (fields : Dict String) (s : Store) → scores j (hset k fields s) ≡ scores j s
  pub scores-expire : (j k : String) (t : ℕ) (s : Store) → scores j (expire k t s) ≡ scores j s
  pub scores-lpush : (j k x : String) (s : Store) → scores j (lpush k x s) ≡ scores j s
  pub scores-rpop : (j k : String) (s : Store) → scores j (rpop k s).0 ≡ scores j s
  pub scores-zadd :
      (j k x i : String) (t : ℕ) (s : Store)
      → lookup i (scores j (zadd k x t s))
        ≡ ite
            (str_dec j k)
            (ite (str_dec i x) (some t) (lookup i (scores k s)))
            (lookup i (scores j s))
  pub scores-zrem :
      (j k x i : String) (s : Store)
      → lookup i (scores j (zrem k x s))
        ≡ ite (str_dec j k) (ite (str_dec i x) none (lookup i (scores k s))) (lookup i (scores j s))
  -- The range holds the members whose score is at most the bound.
  pub zrangebyscore_lem :
      (k i : String) (t : ℕ) (s : Store)
      → contains i (zrangebyscore k t s) ≡ is_due t (lookup i (scores k s))
  -- A sorted set of a queue that has a member is listed.
  pub keys_in_flight_lem :
      (q i : String) (s : Store)
      → lookup i (scores (in_flight_key q) s) ≢ none
      → contains (in_flight_key q) (keys_in_flight s) ≡ true
  pub keys_match :
      (k : String) (s : Store)
      → contains k (keys_in_flight s) ≡ true
      → (q : String) × (k ≡ in_flight_key q)
