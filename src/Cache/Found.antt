-- ===== src/Cache/Found.antt =====
-- What the handlers of src/nodes/cache_node.py find of a key, and what peers see of it.
use distributed_sync_system.Base.{
  ℕ, ◌<◌, ◌≡◌, refl, ◌⊎◌, ap, ◌∙◌, true, false, Option, none, some, [], ◌∷◌, ◌++◌, String, Dict,
  str_dec, ite, lookup, insert, erase, lookup-insert_self, lookup-erase, length, leb, arith,
  Bool-cases, Option-cases, inl, inr, returned,
}
use distributed_sync_system.Metrics.{Registry}
use distributed_sync_system.Cache.Lru.{
  CacheEntry, LruCache, MesiState, invalid, get, put, evict, move_to_end,
}
use distributed_sync_system.Cache.Node.{CacheNode, PeekReply, is_valid, put_entry, invalidate, peek}

module _ {V : Type 0} where
  pub lookup-snoc :
      (j k : String) (x : CacheEntry V) (s : Dict (CacheEntry V))
      → lookup j s ≡ none
      → lookup j (s ++ (k, x) ∷ []) ≡ ite (str_dec j k) (some x) none
  unfolding lookup
  lookup-snoc j k x [] h = refl
  lookup-snoc j k x ((i, y) ∷ s) h = ground (arith, lookup-snoc j k x s)

  pub lookup-moved :
      (k : String) (x : CacheEntry V) (s : Dict (CacheEntry V))
      → lookup k (move_to_end k x s) ≡ some x
  unfolding move_to_end
  lookup-moved k x s = ground (arith, lookup-erase k k s, lookup-snoc k k x (erase k s))

  -- What the handlers find of a key.
  pub get-none :
      (k : String) (now : ℕ) (c : LruCache V) → lookup k c.store ≡ none → get k now c ≡ (c, none)
  unfolding get
  get-none k now c h = rw (h, get) refl

  pub get-some :
      (k : String) (now : ℕ) (c : LruCache V) (e : CacheEntry V)
      → lookup k c.store ≡ some e
      → let x : CacheEntry V = record e { last_access = now } in
        get k now c ≡ (record c { store = move_to_end k x c.store }, some x)
  unfolding get
  get-some k now c e h = rw (h, get) refl

  -- The node after its `get` of a key that is there.
  abbrev pub looked : String → ℕ → CacheEntry V → CacheNode V → CacheNode V
  looked k now e n = record n {
    cache = record (n.cache) {
      store = move_to_end k (record e { last_access = now }) n.cache.store;
    };
  }

  pub invalidate-none :
      (k : String) (now : ℕ) (n : CacheNode V)
      → lookup k n.cache.store ≡ none
      → invalidate k now n ≡ n
  unfolding invalidate
  invalidate-none k now n h =
      rw (get-none k now n.cache h, invalidate) (rw (get-none k now n.cache h) refl)

  pub invalidate-some :
      (k : String) (now : ℕ) (n : CacheNode V) (e : CacheEntry V)
      → lookup k n.cache.store ≡ some e
      → (invalidate k now n).cache.store
        ≡ insert k (record e { last_access = now; state = invalid }) (looked k now e n).cache.store
  unfolding invalidate
  invalidate-some k now n e h =
      rw (get-some k now n.cache e h, invalidate) (rw (get-some k now n.cache e h) refl)

  pub evict-lookup :
      (k : String) (x : CacheEntry V) (r : Registry) (c : LruCache V) (s : Dict (CacheEntry V))
      → 0 < length s
      → let p = evict k x r c s in
        (lookup k p.0.store ≡ some x) × (old : String) × (p.2 ≡ returned (some old))
  unfolding evict
  evict-lookup k x r c [] p = absurd (omega arith)
  evict-lookup k x r c ((j, f) ∷ s) p = (lookup-insert_self k x s, j, refl)

  -- A put into a store with room for at least one entry ends without an exception, and the key has
  -- the entry.
  pub put-lookup :
      (k : String) (x : CacheEntry V) (r : Registry) (c : LruCache V)
      → 0 < c.capacity
      → let p = put k x r c in
        (lookup k p.0.store ≡ some x) × (old : Option String) × (p.2 ≡ returned old)
  unfolding put
  put-lookup k x r c p = elim (Option-cases (lookup k c.store)) [
    | inr (y, h) ↦ rw (h, put) (lookup-insert_self k x (move_to_end k y c.store), none, refl)
    | inl h ↦ elim (Bool-cases (leb c.capacity (length c.store))) [
      | inl full ↦
          let (there, old, q) = evict-lookup k x r c c.store (ground arith) in
          rw (h, put) (rw full (there, some old, q))
      | inr room ↦ rw (h, put) (rw room (lookup-insert_self k x c.store, none, refl))
    ]
  ]

  pub put_entry-lookup :
      (k : String) (x : CacheEntry V) (n : CacheNode V)
      → 0 < n.cache.capacity
      → let p = put_entry k x n in
        (lookup k p.0.cache.store ≡ some x) × (old : Option String) × (p.1 ≡ returned old)
  unfolding put_entry
  put_entry-lookup k x n p =
      let (there, old, q) = put-lookup k x n.metrics n.cache p in
      rw (q, put_entry) (there, old, refl)

  abbrev pub shown : Option V → MesiState → ℕ → PeekReply V
  shown value state version = record { value = value; state = some state; version = version }

  pub peek-some :
      (k : String) (n : CacheNode V) (e : CacheEntry V)
      → lookup k n.cache.store ≡ some e
      → is_valid e.state ≡ true
      → peek k n ≡ shown e.value e.state e.version
  unfolding peek
  peek-some k n e h q = rw (h, peek) (rw q refl)

  -- The key is not there, or not valid.
  abbrev pub Missing : String → LruCache V → Type 0
  Missing k c =
      (lookup k c.store ≡ none)
      ⊎ ((e : CacheEntry V) × (lookup k c.store ≡ some e) × (is_valid e.state ≡ false))

  pub peek-Missing : (k : String) (n : CacheNode V) → Missing k n.cache → (peek k n).value ≡ none
  unfolding peek
  peek-Missing k n (inl h) = rw (h, peek) refl
  peek-Missing k n (inr (e, h, q)) = rw (h, peek) (rw q refl)

  -- A node that was told to invalidate a key does not have it validly.
  pub invalidate-Missing :
      (k : String) (now : ℕ) (n : CacheNode V) → Missing k (invalidate k now n).cache
  invalidate-Missing k now n = elim (Option-cases (lookup k n.cache.store)) [
    | inl h ↦ inl (rw (invalidate-none k now n h) h)
    | inr (e, h) ↦
        let x : CacheEntry V = record e { last_access = now; state = invalid } in
        inr (
          x,
          ap (lookup k) (invalidate-some k now n e h)
              ∙ lookup-insert_self k x (looked k now e n).cache.store,
          refl,
        )
  ]
