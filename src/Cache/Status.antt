-- ===== src/Cache/Status.antt =====
-- `get_status` of src/nodes/cache_node.py.
use distributed_sync_system.Base.{ℕ, List, String, length, take}
use distributed_sync_system.Metrics.{counter_value}
use distributed_sync_system.Metrics.Report.{Quotient, cache_hit_rate}
use distributed_sync_system.Cache.Lru.{all_keys}
use distributed_sync_system.Cache.Node.{CacheNode}

pub record CacheStatus : Type 0 where
  pub node : String
  pub cache_size : ℕ
  pub capacity : ℕ
  pub hit_rate : Quotient
  pub keys : List String
  pub hits : ℕ
  pub misses : ℕ
  pub evictions : ℕ
  pub invalidations : ℕ

-- `snapshot["counters"].get(name, 0)` is what the counter shows.
unfoldable pub get_status : {V : Type 0} → String → CacheNode V → CacheStatus
unfolding counter_value cache_hit_rate all_keys
get_status node n = record {
  node = node;
  cache_size = length n.cache.store;
  capacity = n.cache.capacity;
  hit_rate = cache_hit_rate n.metrics;
  keys = take 50 (all_keys n.cache.store);
  hits = counter_value "cache_hits_total" n.metrics;
  misses = counter_value "cache_misses_total" n.metrics;
  evictions = counter_value "cache_evictions_total" n.metrics;
  invalidations = counter_value "cache_invalidations_total" n.metrics;
}
