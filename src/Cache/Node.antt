-- ===== src/Cache/Node.antt =====
-- The handlers of the cache node of src/nodes/cache_node.py. A handler holds the node's lock also while
-- it waits for its peers, so it is a function of the state and of the peers' answers. The backing
-- store of the source is a stub that holds nothing and forgets what is written back.
use distributed_sync_system.Base.{
  ℕ, suc, Bool, true, false, Option, none, some, List, [], ◌∷◌, String, lookup, insert, pos, length,
  if◌then◌else◌, Outcome, returned, raised,
}
use distributed_sync_system.Metrics.{Registry, count_up, set_gauge}
use distributed_sync_system.Cache.Lru.{
  MesiState, modified, exclusive, shared, invalid, CacheEntry, LruCache, get, put,
}

pub record CacheNode (V : Type 0) : Type 0 where
  pub cache : LruCache V
  pub metrics : Registry

-- What `peek` answers: the value, and where there is one its state and version.
pub record PeekReply (V : Type 0) : Type 0 where
  pub value : Option V
  pub state : Option MesiState
  pub version : ℕ

pub data ReadReply (V : Type 0) : Type 0 where
  hit : Option V → MesiState → ReadReply V
  miss : Option V → MesiState → ReadReply V

-- `state != MESIState.INVALID`
abbrev pub is_valid : MesiState → Bool
is_valid invalid = false
is_valid _ = true

abbrev pub is_exclusive : MesiState → Bool
is_exclusive modified = true
is_exclusive exclusive = true
is_exclusive _ = false

module _ {V : Type 0} where
  unfoldable pub init : ℕ → Registry → CacheNode V
  init capacity metrics = record {
    cache = record { capacity = capacity; store = [] };
    metrics = metrics;
  }

  -- The loop over the peers' answers, `none` where a call failed.
  unfoldable pub fetch_from_peers : List (Option (PeekReply V)) → Option (V × ℕ)
  fetch_from_peers [] = none
  fetch_from_peers (none ∷ answers) = fetch_from_peers answers
  fetch_from_peers (some reply ∷ answers) = elim reply.value [
    | none ↦ fetch_from_peers answers
    | some v ↦ some (v, reply.version)
  ]

  unfoldable pub load_from_memory : String → Option V
  load_from_memory key = none

  -- `put`, and the gauge behind it, which an exception skips.
  unfoldable pub put_entry :
      String → CacheEntry V → CacheNode V → CacheNode V × Outcome (Option String)
  put_entry key entry n =
      let (cache, metrics, ended) = put key entry n.metrics n.cache in
      elim ended [
        | raised e ↦ (record { cache = cache; metrics = metrics }, raised e)
        | returned k ↦ (
          record {
            cache = cache;
            metrics = set_gauge "cache_size" (pos (length cache.store)) metrics;
          },
          returned k,
        )
      ]

  -- The end of a miss: a value that was found goes into the cache.
  unfoldable pub fill :
      String → ℕ → MesiState → ℕ → Option V → CacheNode V → CacheNode V × Outcome (ReadReply V)
  unfolding put_entry
  fill key now state version none n = (n, returned (miss none invalid))
  fill key now state version (some v) n =
      let (n', ended) =
        put_entry key
          (record {
            key = key;
            value = some v;
            state = state;
            version = version;
            last_access = now;
            dirty = false;
          })
          n in
      elim ended [ raised e ↦ (n', raised e) | returned _ ↦ (n', returned (miss (some v) state)) ]

  unfoldable pub read_miss :
      String → ℕ → List (Option (PeekReply V)) → CacheNode V → CacheNode V × Outcome (ReadReply V)
  unfolding fill load_from_memory
  read_miss key now answers n =
      let n' : CacheNode V = record n { metrics = count_up "cache_misses_total" 1 n.metrics } in
      elim (fetch_from_peers answers) [
        | some (v, version) ↦ fill key now shared version (some v) n'
        | none ↦ fill key now exclusive 0 (load_from_memory key) n'
      ]

  unfoldable pub read :
      String → ℕ → List (Option (PeekReply V)) → CacheNode V → CacheNode V × Outcome (ReadReply V)
  read key now answers n =
      let (cache, entry) = get key now n.cache in
      let looked : CacheNode V = record n { cache = cache } in
      elim entry [
        | none ↦ read_miss key now answers looked
        | some e ↦
            if is_valid e.state
            then (
              record looked { metrics = count_up "cache_hits_total" 1 n.metrics },
              returned (hit e.value e.state),
            )
            else read_miss key now answers looked
      ]

  -- The writes in place, to the entry that `get` has put last.
  unfoldable pub write_here : String → Option V → CacheEntry V → LruCache V → LruCache V
  write_here key value e cache = record cache {
    store =
        insert key
          (record e { value = value; state = modified; version = suc e.version; dirty = true })
          cache.store;
  }

  -- The new entry of a write that has invalidated the peers.
  unfoldable pub write_entry : String → ℕ → Option V → Option (CacheEntry V) → CacheEntry V
  write_entry key now value old = record {
    key = key;
    value = value;
    state = modified;
    version = elim old [ none ↦ 0 | some e ↦ suc e.version ];
    last_access = now;
    dirty = true;
  }

  -- A write that has the peers invalidate the key, which `true` says.
  unfoldable pub write_shared :
      String
      → ℕ
      → Option V
      → Option (CacheEntry V)
      → CacheNode V
      → CacheNode V × Bool × Outcome (Unit {0})
  unfolding write_entry
  write_shared key now value old n =
      let (n', ended) = put_entry key (write_entry key now value old) n in
      elim ended [ raised e ↦ (n', true, raised e) | returned _ ↦ (n', true, returned tt) ]

  unfoldable pub write :
      String → ℕ → Option V → CacheNode V → CacheNode V × Bool × Outcome (Unit {0})
  write key now value n =
      let (cache, entry) = get key now n.cache in
      let looked : CacheNode V = record n { cache = cache } in
      elim entry [
        | none ↦ write_shared key now value none looked
        | some e ↦
            if is_exclusive e.state
            then (record looked { cache = write_here key value e cache }, false, returned tt)
            else write_shared key now value (some e) looked
      ]

  -- The request of another node.
  unfoldable pub invalidate : String → ℕ → CacheNode V → CacheNode V
  invalidate key now n =
      let (cache, entry) = get key now n.cache in
      elim entry [
        | none ↦ record n { cache = cache }
        | some e ↦ record {
          cache = record cache { store = insert key (record e { state = invalid }) cache.store };
          metrics = count_up "cache_invalidations_total" 1 n.metrics;
        }
      ]

  unfoldable pub peek : String → CacheNode V → PeekReply V
  peek key n = elim (lookup key n.cache.store) [
    | none ↦ record { value = none; state = none; version = 0 }
    | some e ↦
        if is_valid e.state
        then record { value = e.value; state = some e.state; version = e.version }
        else record { value = none; state = none; version = 0 }
  ]
