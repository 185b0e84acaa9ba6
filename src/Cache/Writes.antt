-- ===== src/Cache/Writes.antt =====
-- The writes of the cache node of src/nodes/cache_node.py.
use distributed_sync_system.Base.{
  ℕ, suc, ◌<◌, ◌≡◌, refl, Bool, true, false, Option, none, some, String, lookup, lookup-insert_self,
  if◌then◌else◌, Option-cases, inl, inr, returned, Outcome,
}
use distributed_sync_system.Cache.Lru.{CacheEntry, modified}
use distributed_sync_system.Cache.Node.{
  CacheNode, is_exclusive, put_entry, write, write_here, write_entry, write_shared, peek,
}
use distributed_sync_system.Cache.Found.{
  get-none, get-some, looked, put_entry-lookup, shown, peek-some,
}

module _ {V : Type 0} where
  -- The end of a write that tells its peers.
  abbrev pub Told : String → Option V → CacheNode V × Bool × Outcome (Unit {0}) → Type 0
  Told k value (n, told, ended) =
      ((version : ℕ) × (peek k n ≡ shown value modified version))
      × (told ≡ true)
      × (ended ≡ returned tt)

  write_shared-Told :
      (k : String) (now : ℕ) (value : Option V) (old : Option (CacheEntry V)) (n : CacheNode V)
      → 0 < n.cache.capacity
      → Told k value (write_shared k now value old n)
  unfolding write_shared
  write_shared-Told k now value old n p =
      let x = write_entry k now value old in
      let (there, key, q) = put_entry-lookup k x n p in
      rw (q, write_shared) ((x.version, peek-some k (put_entry k x n).0 x there refl), refl, refl)

  write-none :
      (k : String) (now : ℕ) (value : Option V) (n : CacheNode V)
      → lookup k n.cache.store ≡ none
      → write k now value n ≡ write_shared k now value none n
  unfolding write
  write-none k now value n h =
      rw (get-none k now n.cache h, write) (rw (get-none k now n.cache h) refl)

  write-some :
      (k : String) (now : ℕ) (value : Option V) (n : CacheNode V) (e : CacheEntry V)
      → lookup k n.cache.store ≡ some e
      → let m = looked k now e n in
        let x : CacheEntry V = record e { last_access = now } in
        write k now value n ≡ (
          if is_exclusive e.state
          then (record m { cache = write_here k value x m.cache }, false, returned tt)
          else write_shared k now value (some x) m)
  unfolding write
  write-some k now value n e h =
      rw (get-some k now n.cache e h, write) (rw (get-some k now n.cache e h) refl)

  -- A write of a key that the node does not have modified or exclusive makes the value its own and
  -- has the peers invalidate theirs.
  pub write_tells :
      (k : String) (now : ℕ) (value : Option V) (n : CacheNode V)
      → 0 < n.cache.capacity
      → ((e : CacheEntry V) → lookup k n.cache.store ≡ some e → is_exclusive e.state ≡ false)
      → Told k value (write k now value n)
  write_tells k now value n p h = elim (Option-cases (lookup k n.cache.store)) [
    | inl q ↦ rw (write-none k now value n q) (write_shared-Told k now value none n p)
    | inr (e, q) ↦ rw (write-some k now value n e q) (
        rw (h e q) (
          write_shared-Told k now value (some (record e { last_access = now })) (looked k now e n)
            p))
  ]

  -- A write of a key that the node has modified or exclusive makes the value its own, and tells nobody.
  pub write_silent :
      (k : String) (now : ℕ) (value : Option V) (n : CacheNode V) (e : CacheEntry V)
      → lookup k n.cache.store ≡ some e
      → is_exclusive e.state ≡ true
      → let r = write k now value n in
        (peek k r.0 ≡ shown value modified (suc e.version)) × (r.1 ≡ false) × (r.2 ≡ returned tt)
  unfolding write_here
  write_silent k now value n e h s =
      let m = looked k now e n in
      let x : CacheEntry V = record e { last_access = now } in
      let y : CacheEntry V = record x {
        value = value;
        state = modified;
        version = suc e.version;
        dirty = true;
      } in
      rw (write-some k now value n e h) (
        rw s (
          peek-some k (record m { cache = write_here k value x m.cache }) y
              (lookup-insert_self k y m.cache.store) refl,
          refl,
          refl,
        ))
