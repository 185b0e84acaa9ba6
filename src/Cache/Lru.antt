-- ===== src/Cache/Lru.antt =====
-- The data and the LRU store of src/nodes/cache_node.py. The ordered dictionary is an association list
-- with the least recently used key first. A value may be None, as in the source.
use distributed_sync_system.Base.{
  ℕ, Bool, true, false, Option, none, some, List, [], ◌∷◌, ◌++◌, String, Dict, lookup, insert,
  erase, leb, length, if◌then◌else◌, Outcome, returned, raised, key_error,
}
use distributed_sync_system.Metrics.{Registry, count_up}

pub data MesiState : Type 0 where
  modified exclusive shared invalid : MesiState

pub record CacheEntry (V : Type 0) : Type 0 where
  pub key : String
  pub value : Option V
  pub state : MesiState
  pub version : ℕ
  pub last_access : ℕ
  pub dirty : Bool

pub record LruCache (V : Type 0) : Type 0 where
  pub capacity : ℕ
  pub store : Dict (CacheEntry V)

module _ {V : Type 0} where
  unfoldable pub init : ℕ → LruCache V
  init capacity = record { capacity = capacity; store = [] }

  -- `move_to_end` of a key that is in the store.
  unfoldable pub move_to_end : String → CacheEntry V → Dict (CacheEntry V) → Dict (CacheEntry V)
  move_to_end key entry store = erase key store ++ (key, entry) ∷ []

  unfoldable pub get : String → ℕ → LruCache V → LruCache V × Option (CacheEntry V)
  unfolding move_to_end
  get key now c = elim (lookup key c.store) [
    | none ↦ (c, none)
    | some e ↦
        let entry : CacheEntry V = record e { last_access = now } in
        (record c { store = move_to_end key entry c.store }, some entry)
  ]

  -- `popitem(last=False)` of the given store and the rest of `put` for a new key.
  unfoldable pub evict :
      String
      → CacheEntry V
      → Registry
      → LruCache V
      → Dict (CacheEntry V)
      → LruCache V × Registry × Outcome (Option String)
  evict key entry metrics c [] = (c, metrics, raised key_error)
  evict key entry metrics c ((old, e) ∷ store) = (
    record c { store = insert key entry store },
    count_up "cache_evictions_total" 1 metrics,
    returned (some old),
  )

  unfoldable pub put :
      String
      → CacheEntry V
      → Registry
      → LruCache V
      → LruCache V × Registry × Outcome (Option String)
  unfolding evict move_to_end
  put key entry metrics c = elim (lookup key c.store) [
    | some e ↦
        (record c { store = insert key entry (move_to_end key e c.store) }, metrics, returned none)
    | none ↦
        if leb c.capacity (length c.store)
        then evict key entry metrics c c.store
        else (record c { store = insert key entry c.store }, metrics, returned none)
  ]

  unfoldable pub invalidate : String → LruCache V → LruCache V × Bool
  invalidate key c = elim (lookup key c.store) [
    | none ↦ (c, false)
    | some e ↦ (record c { store = erase key c.store }, true)
  ]

  unfoldable pub all_keys : Dict (CacheEntry V) → List String
  all_keys [] = []
  all_keys ((k, e) ∷ store) = k ∷ all_keys store
