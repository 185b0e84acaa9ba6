-- ===== src/Cache/Tests.antt =====
-- Runs of the cache node of src/nodes/cache_node.py.
use distributed_sync_system.Base.{
  ℕ, ◌≡◌, ◌==◌, if◌then◌else◌, length, refl, false, none, some, List, [], ◌∷◌, String, str_dec,
  lookup, insert, erase, contains, add, discard, arith, inl, returned, raised, key_error,
}
use distributed_sync_system.Metrics.{
  Registry, count_up, counter, set_gauge, gauge, histogram, counter_value,
}
use distributed_sync_system.Metrics.Report.{
  init_metrics, add_counters, add_gauges, add_histograms, cache_hit_rate,
}
use distributed_sync_system.Cache.Counted.{
  hits_among, is_hit, Reading, read_each, cache_hit_rate_lem,
}
use distributed_sync_system.Cache.Lru.{
  CacheEntry, LruCache, MesiState, modified, exclusive, shared, init, get, put, evict, move_to_end,
  all_keys,
}
use distributed_sync_system.Cache.Node.{
  CacheNode, hit, fetch_from_peers, load_from_memory, put_entry, fill, read_miss, read, write,
  write_here, write_entry, write_shared, invalidate, peek,
}
use distributed_sync_system.Cache.Order.{touch, after_get, after_put, put-keys}
use distributed_sync_system.Cache.Calls.{
  Call, get_call, put_call, run_calls, after_calls, Fits, run_calls-keys,
}
use distributed_sync_system.Cache.Found.{shown}
use distributed_sync_system.Cache.Reads.{Fetched, read-Missing, read_valid}
use distributed_sync_system.Cache.Writes.{Told, write_tells, write_silent}
use distributed_sync_system.Cache.Peers.{
  broadcast_invalidate, write_among, write_among-alone, stale_read,
}

program : Unit {0}
unfolding str_dec lookup insert erase contains add discard count_up counter set_gauge gauge init get
    put evict move_to_end all_keys fetch_from_peers load_from_memory put_entry fill read_miss read
    write write_here write_entry write_shared invalidate peek touch after_get after_put run_calls
    after_calls broadcast_invalidate write_among
program = tt

abbrev registry : Registry
registry = record { counters = []; gauges = []; histograms = [] }

abbrev entry : String → ℕ → MesiState → CacheEntry ℕ
entry k v s = record {
  key = k;
  value = some v;
  state = s;
  version = 0;
  last_access = 0;
  dirty = false;
}

abbrev empty : LruCache ℕ
empty = record { capacity = 2; store = [] }

abbrev full : LruCache ℕ
full = record {
  capacity = 2;
  store = ("a", entry "a" 1 exclusive) ∷ ("b", entry "b" 2 shared) ∷ [];
}

full_store_evicts :
    let r = put "c" (entry "c" 3 shared) registry full in
    (all_keys r.0.store ≡ "b" ∷ "c" ∷ []) × (r.0.capacity ≡ 2) × (r.2 ≡ returned (some "a"))
unfolding program
full_store_evicts = put-keys "c" (entry "c" 3 shared) registry full (omega arith)

-- A store without room raises from its first put.
put_no_room :
    (put "c" (entry "c" 3 shared) registry (record empty { capacity = 0 })).2 ≡ raised key_error
unfolding program
put_no_room = refl

abbrev calls : List (Call ℕ)
calls =
    put_call "a" (entry "a" 1 shared)
    ∷ put_call "b" (entry "b" 2 shared)
    ∷ get_call "a" 5
    ∷ put_call "c" (entry "c" 3 shared)
    ∷ []

run_calls-keys_example :
    let c' = (run_calls calls (empty, registry)).0 in
    (all_keys c'.store ≡ "a" ∷ "c" ∷ []) × (c'.capacity ≡ 2) × Fits 2 ("a" ∷ "c" ∷ [])
unfolding program
run_calls-keys_example = run_calls-keys calls empty registry (omega arith) (tt, omega arith)

abbrev owner : CacheNode ℕ
owner = record { cache = full; metrics = registry }

abbrev fresh : CacheNode ℕ
fresh = record { cache = empty; metrics = registry }

nothing_found : Fetched "b" (some (2, 0)) (read "b" 7 (none ∷ some (peek "b" owner) ∷ []) fresh)
unfolding program
nothing_found =
    read-Missing "b" 7 (none ∷ some (peek "b" owner) ∷ []) fresh (omega arith) (inl refl)

shared_hit :
    let r = read "a" 7 [] owner in
    (r.1 ≡ returned (hit (some 1) exclusive)) × (peek "a" r.0 ≡ shown (some 1) exclusive 0)
unfolding program
shared_hit = read_valid "a" 7 [] owner (entry "a" 1 exclusive) refl refl

three_writes : Told "b" (some 9) (write "b" 8 (some 9) owner)
unfolding program
three_writes = write_tells "b" 8 (some 9) owner (omega arith) (λ e h. ground arith)

silent_write :
    let r = write "a" 8 (some 9) owner in
    (peek "a" r.0 ≡ shown (some 9) modified 1) × (r.1 ≡ false) × (r.2 ≡ returned tt)
unfolding program
silent_write = write_silent "a" 8 (some 9) owner (entry "a" 1 exclusive) refl refl

write_among-alone_example :
    let r = write_among "b" 8 (some 9) ("p" ∷ []) owner (("p", owner) ∷ []) in
    ((version : ℕ) × (peek "b" r.0 ≡ shown (some 9) modified version))
    × (p : CacheNode ℕ) × (lookup "p" r.1 ≡ some p)
    × ((peek "b" p).value ≡ none)
unfolding program
write_among-alone_example =
    write_among-alone "b" 8 9 ("p" ∷ []) owner (("p", owner) ∷ []) "p" owner (omega arith)
      (λ e h. ground arith) refl refl

stale_read_example :
    let b' = (read "a" 5 (some (peek "a" owner) ∷ []) fresh).0 in
    let r = write "a" 6 (some 9) owner in
    (r.1 ≡ false)
    × (peek "a" r.0 ≡ shown (some 9) modified 1)
    × ((read "a" 7 [] b').1 ≡ returned (hit (some 1) shared))
unfolding program
stale_read_example =
    stale_read "a" 5 6 7 1 9 [] owner fresh (entry "a" 1 exclusive) (omega arith) refl refl refl
      refl

-- Two reads: a miss that a peer answers, and a hit.
abbrev two_reads : List (Reading ℕ)
two_reads =
    ("x", 1, some (record { value = some 4; state = some shared; version = 2 }) ∷ [])
    ∷ ("x", 2, [])
    ∷ []

abbrev counting_node : CacheNode ℕ
unfolding init_metrics add_counters add_gauges add_histograms counter gauge histogram
counting_node = record { cache = empty; metrics = init_metrics }

cache_hit_rate_lem_example : cache_hit_rate (read_each two_reads counting_node).metrics ≡ (
    if length two_reads == 0
    then (0, 1)
    else (hits_among two_reads counting_node, length two_reads))
unfolding init_metrics add_counters add_gauges add_histograms counter gauge histogram counter_value
    lookup insert str_dec
cache_hit_rate_lem_example = cache_hit_rate_lem two_reads counting_node refl

-- The first read is a miss, the second a hit.
one_hit : hits_among two_reads counting_node ≡ 1
unfolding program init_metrics add_counters add_gauges add_histograms histogram hits_among is_hit
one_hit = refl

half : cache_hit_rate (read_each two_reads counting_node).metrics ≡ (1, 2)
unfolding program init_metrics add_counters add_gauges add_histograms histogram counter_value
    cache_hit_rate read_each
half = refl
