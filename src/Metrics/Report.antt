-- ===== src/Metrics/Report.antt =====
-- The start and the reports of `MetricsCollector` of src/utils/metrics.py. A quotient is the pair of its two
-- numbers, before the source rounds it.
use distributed_sync_system.Base.{ℕ, ◌+◌, ◌==◌, if◌then◌else◌, List, [], ◌∷◌, String, ℤ, Dict}
use distributed_sync_system.Metrics.{
  Registry, Counter, Gauge, counter, gauge, histogram, counter_value,
}
use distributed_sync_system.Metrics.Histograms.{Histogram, p99}

-- `counter.reset()`
unfoldable pub reset : Counter → Counter
reset c = record c { value = 0 }

abbrev pub Quotient : Type 0
Quotient = ℕ × ℕ

unfoldable pub avg : Histogram → Quotient
avg h = if h.count == 0 then (0, 1) else (h.sum, h.count)

abbrev pub counter_names : List (String × String)
counter_names =
    ("lock_acquire_total", "Total lock acquisitions")
    ∷ ("lock_release_total", "Total lock releases")
    ∷ ("lock_timeout_total", "Total lock timeouts")
    ∷ ("deadlock_detected_total", "Total deadlocks detected")
    ∷ ("messages_produced_total", "Total messages produced")
    ∷ ("messages_consumed_total", "Total messages consumed")
    ∷ ("messages_redelivered_total", "Total messages redelivered")
    ∷ ("cache_hits_total", "Total cache hits")
    ∷ ("cache_misses_total", "Total cache misses")
    ∷ ("cache_evictions_total", "Total cache evictions (LRU)")
    ∷ ("cache_invalidations_total", "Total cache invalidations (MESI)")
    ∷ ("raft_elections_total", "Total elections started")
    ∷ ("raft_commits_total", "Total log entries committed")
    ∷ ("rpc_calls_total", "Total RPC calls")
    ∷ ("rpc_failures_total", "Total RPC failures")
    ∷ []

abbrev pub gauge_names : List (String × String)
gauge_names =
    ("active_locks", "Currently held locks")
    ∷ ("queue_depth", "Current queue depth")
    ∷ ("cache_size", "Current number of cache entries")
    ∷ ("raft_term", "Current Raft term")
    ∷ ("raft_log_size", "Current Raft log size")
    ∷ []

abbrev pub histogram_names : List (String × String)
histogram_names =
    ("lock_wait_seconds", "Lock wait time distribution")
    ∷ ("message_processing_seconds", "Message processing time")
    ∷ ("rpc_duration_seconds", "RPC call duration")
    ∷ []

unfoldable pub add_counters : List (String × String) → Registry → Registry
unfolding counter
add_counters [] r = r
add_counters ((n, d) ∷ ns) r = add_counters ns (counter n d r).0

unfoldable pub add_gauges : List (String × String) → Registry → Registry
unfolding gauge
add_gauges [] r = r
add_gauges ((n, d) ∷ ns) r = add_gauges ns (gauge n d r).0

unfoldable pub add_histograms : List (String × String) → Registry → Registry
unfolding histogram
add_histograms [] r = r
add_histograms ((n, d) ∷ ns) r = add_histograms ns (histogram n d r).0

-- `__init__` with `_init_metrics`, by kind: the three dictionaries do not depend on one another.
unfoldable pub init_metrics : Registry
unfolding add_counters add_gauges add_histograms
init_metrics = add_histograms histogram_names (
    add_gauges gauge_names
      (add_counters counter_names (record { counters = []; gauges = []; histograms = [] })))

-- `cache_hit_rate`: the hits of all reads.
unfoldable pub cache_hit_rate : Registry → Quotient
unfolding counter_value
cache_hit_rate r =
    let hits = counter_value "cache_hits_total" r in
    let total = hits + counter_value "cache_misses_total" r in
    if total == 0 then (0, 1) else (hits, total)

pub record HistogramReport : Type 0 where
  pub count : ℕ
  pub sum : ℕ
  pub mean : Quotient
  pub percentile : ℕ

pub record Snapshot : Type 0 where
  pub uptime : ℕ
  pub hit_rate : Quotient
  pub counters : Dict ℕ
  pub gauges : Dict ℤ
  pub histograms : Dict HistogramReport

unfoldable pub counters_of : Dict Counter → Dict ℕ
counters_of [] = []
counters_of ((n, c) ∷ cs) = (n, c.value) ∷ counters_of cs

unfoldable pub gauges_of : Dict Gauge → Dict ℤ
gauges_of [] = []
gauges_of ((n, g) ∷ gs) = (n, g.value) ∷ gauges_of gs

unfoldable pub histograms_of : Dict Histogram → Dict HistogramReport
unfolding avg p99
histograms_of [] = []
histograms_of ((n, h) ∷ hs) =
    (n, record { count = h.count; sum = h.sum; mean = avg h; percentile = p99 h })
    ∷ histograms_of hs

unfoldable pub get_snapshot : ℕ → Registry → Snapshot
unfolding cache_hit_rate counters_of gauges_of histograms_of
get_snapshot uptime r = record {
  uptime = uptime;
  hit_rate = cache_hit_rate r;
  counters = counters_of r.counters;
  gauges = gauges_of r.gauges;
  histograms = histograms_of r.histograms;
}
