-- ===== src/Metrics/Tests.antt =====
-- Runs of the metrics of src/utils/metrics.py.
use distributed_sync_system.Base.{◌≡◌, refl, [], ◌∷◌, ℕ, List, lookup, insert, str_dec}
use distributed_sync_system.Metrics.{
  Registry, counter, count_up, counter_value, counter_value-count_up,
}
use distributed_sync_system.Metrics.Histograms.{
  init, count_at, observe, bump_counts, set_count, zero_counts, or_default, p99, p99_from, last,
}
use distributed_sync_system.Metrics.Observed.{observe_all, observe_all_lem, has, up_to}

abbrev registry : Registry
registry = record { counters = []; gauges = []; histograms = [] }

two_counted : counter_value "x" (count_up "x" 2 registry) ≡ 2
unfolding counter_value count_up counter lookup insert str_dec
two_counted = counter_value-count_up "x" "x" 2 registry

abbrev values : List ℕ
values = 1 ∷ 1 ∷ 7000 ∷ 8000 ∷ []

four_seen :
    let m = observe_all values (init "x" "" (1 ∷ 5 ∷ 10 ∷ 10000 ∷ [])) in
    (count_at 10 m.bucket_counts ≡ 2) × (m.count ≡ 4) × (m.sum ≡ 15002)
unfolding has up_to
four_seen =
    observe_all_lem 10 values "x" "" 1 (5 ∷ 10 ∷ 10000 ∷ []) (refl, (refl, (refl, (refl, tt)))) refl

-- Half of the values are above 5, and so should their 99th percentile be.
p99_low : p99 (observe_all values (init "x" "" (1 ∷ 5 ∷ 10 ∷ 10000 ∷ []))) ≡ 5
unfolding observe_all observe init bump_counts set_count zero_counts or_default p99 p99_from last
    count_at
p99_low = refl
