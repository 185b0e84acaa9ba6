-- ===== src/Cache/Reads.antt =====
-- The reads of the cache node of src/nodes/cache_node.py.
use distributed_sync_system.Base.{
  ℕ, ◌<◌, ◌≡◌, refl, sym, ◌∙◌, true, false, Option, none, some, List, String, lookup, if◌then◌else◌,
  Option-cases, inl, inr, returned, Outcome,
}
use distributed_sync_system.Metrics.{count_up}
use distributed_sync_system.Cache.Lru.{CacheEntry, shared, invalid}
use distributed_sync_system.Cache.Node.{
  CacheNode, PeekReply, ReadReply, hit, miss, is_valid, fetch_from_peers, put_entry, fill,
  read_miss, read, peek,
}
use distributed_sync_system.Cache.Found.{
  lookup-moved, get-none, get-some, looked, put_entry-lookup, shown, peek-some, Missing,
  peek-Missing,
}

module _ {V : Type 0} where
  read-none :
      (k : String) (now : ℕ) (answers : List (Option (PeekReply V))) (n : CacheNode V)
      → lookup k n.cache.store ≡ none
      → read k now answers n ≡ read_miss k now answers n
  unfolding read
  read-none k now answers n h =
      rw (get-none k now n.cache h, read) (rw (get-none k now n.cache h) refl)

  read-some :
      (k : String) (now : ℕ) (answers : List (Option (PeekReply V))) (n : CacheNode V)
      (e : CacheEntry V)
      → lookup k n.cache.store ≡ some e
      → read k now answers n ≡ (
          if is_valid e.state
          then (
            record (looked k now e n) { metrics = count_up "cache_hits_total" 1 n.metrics },
            returned (hit e.value e.state),
          )
          else read_miss k now answers (looked k now e n))
  unfolding read
  read-some k now answers n e h =
      rw (get-some k now n.cache e h, read) (rw (get-some k now n.cache e h) refl)

  -- What a miss finds: a peer's value, to share, or nothing.
  abbrev pub Fetched : String → Option (V × ℕ) → CacheNode V × Outcome (ReadReply V) → Type 0
  Fetched k none (n, ended) = (ended ≡ returned (miss none invalid)) × ((peek k n).value ≡ none)
  Fetched k (some (v, version)) (n, ended) =
      (ended ≡ returned (miss (some v) shared)) × (peek k n ≡ shown (some v) shared version)

  fill-Fetched :
      (k : String) (now : ℕ) (v : V) (version : ℕ) (n : CacheNode V)
      → 0 < n.cache.capacity
      → Fetched k (some (v, version)) (fill k now shared version (some v) n)
  unfolding fill
  fill-Fetched k now v version n p =
      let x : CacheEntry V = record {
        key = k;
        value = some v;
        state = shared;
        version = version;
        last_access = now;
        dirty = false;
      } in
      let (there, old, q) = put_entry-lookup k x n p in
      rw (q, fill) (refl, peek-some k (put_entry k x n).0 x there refl)

  read_miss-Fetched :
      (k : String) (now : ℕ) (answers : List (Option (PeekReply V))) (n : CacheNode V)
      → 0 < n.cache.capacity
      → Missing k n.cache
      → Fetched k (fetch_from_peers answers) (read_miss k now answers n)
  unfolding read_miss
  read_miss-Fetched k now answers n p h =
      let counted : CacheNode V = record n {
        metrics = count_up "cache_misses_total" 1 n.metrics;
      } in
      elim (Option-cases (fetch_from_peers answers)) [
        | inl e ↦ rw (e, read_miss) (refl, peek-Missing k counted h)
        | inr (a, e) ↦ rw (e, read_miss) (fill-Fetched k now a.0 a.1 counted p)
      ]

  -- A read of a key that the node does not have, or not validly, answers with the first value that a
  -- peer shows and keeps it to share, and answers with nothing if no peer shows one.
  pub read-Missing :
      (k : String) (now : ℕ) (answers : List (Option (PeekReply V))) (n : CacheNode V)
      → 0 < n.cache.capacity
      → Missing k n.cache
      → Fetched k (fetch_from_peers answers) (read k now answers n)
  read-Missing k now answers n p (inl h) =
      rw (read-none k now answers n h) (read_miss-Fetched k now answers n p (inl h))
  read-Missing k now answers n p (inr (e, h, q)) =
      let x : CacheEntry V = record e { last_access = now } in
      rw (read-some k now answers n e h) (
        rw q (
          read_miss-Fetched k now answers (looked k now e n) p
            (inr (x, lookup-moved k x n.cache.store, q))))

  -- A read of a key that the node has validly answers with it, whatever the peers would say, and
  -- changes nothing in what the peers see of it.
  pub read_valid :
      (k : String) (now : ℕ) (answers : List (Option (PeekReply V))) (n : CacheNode V)
      (e : CacheEntry V)
      → lookup k n.cache.store ≡ some e
      → is_valid e.state ≡ true
      → let r = read k now answers n in
        (r.1 ≡ returned (hit e.value e.state)) × (peek k r.0 ≡ peek k n)
  read_valid k now answers n e h q =
      let x : CacheEntry V = record e { last_access = now } in
      let after : CacheNode V = record (looked k now e n) {
        metrics = count_up "cache_hits_total" 1 n.metrics;
      } in
      rw (read-some k now answers n e h) (
        rw q (
          refl,
          peek-some k after x (lookup-moved k x n.cache.store) q ∙ sym (peek-some k n e h q),
        ))
