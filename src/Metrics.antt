-- ===== src/Metrics.antt =====
-- The registry of src/utils/metrics.py: counters, gauges and histograms by name. The components
-- keep one registry in their state, as the source keeps one global collector. A counter's and a
-- gauge's amounts are whole numbers, as every call of the source has them.
use distributed_sync_system.Base.{
  ℕ, ◌+◌, ◌≡◌, refl, ite, Option, none, some, String, arith, List, [], ◌∷◌, ℤ, pos, ◌+ℤ◌, ◌-ℤ◌,
  Dict, lookup, insert, str_dec, lookup-insert,
}
pub mod Histograms
pub mod Observed
pub mod Report
mod Tests
use Histograms.{Histogram}
use Histograms

pub record Counter : Type 0 where
  pub name : String
  pub description : String
  pub value : ℕ

pub record Gauge : Type 0 where
  pub name : String
  pub description : String
  pub value : ℤ

pub record Registry : Type 0 where
  pub counters : Dict Counter
  pub gauges : Dict Gauge
  pub histograms : Dict Histogram

-- `metrics.counter(name, description)`: the registry after it, and the counter that it returns.
unfoldable pub counter : String → String → Registry → Registry × Counter
counter name description r = elim (lookup name r.counters) [
  | none ↦
      let c : Counter = record { name = name; description = description; value = 0 } in
      (record r { counters = insert name c r.counters }, c)
  | some c ↦ (r, c)
]

unfoldable pub gauge : String → String → Registry → Registry × Gauge
gauge name description r = elim (lookup name r.gauges) [
  | none ↦
      let g : Gauge = record { name = name; description = description; value = pos 0 } in
      (record r { gauges = insert name g r.gauges }, g)
  | some g ↦ (r, g)
]

unfoldable pub histogram : String → String → Registry → Registry × Histogram
histogram name description r = elim (lookup name r.histograms) [
  | none ↦
      let h : Histogram = Histograms.init name description [] in
      (record r { histograms = insert name h r.histograms }, h)
  | some h ↦ (r, h)
]

-- `metrics.counter(name).increment(amount)`
unfoldable pub count_up : String → ℕ → Registry → Registry
unfolding counter
count_up name amount r =
    let (r', c) = counter name "" r in
    record r' { counters = insert name (record c { value = c.value + amount }) r'.counters }

-- `metrics.gauge(name).set(value)`
unfoldable pub set_gauge : String → ℤ → Registry → Registry
unfolding gauge
set_gauge name value r =
    let (r', g) = gauge name "" r in
    record r' { gauges = insert name (record g { value = value }) r'.gauges }

-- `metrics.gauge(name).increment()`
unfoldable pub increment_gauge : String → Registry → Registry
unfolding gauge
increment_gauge name r =
    let (r', g) = gauge name "" r in
    record r' { gauges = insert name (record g { value = g.value +ℤ pos 1 }) r'.gauges }

-- `metrics.gauge(name).decrement()`
unfoldable pub decrement_gauge : String → Registry → Registry
unfolding gauge
decrement_gauge name r =
    let (r', g) = gauge name "" r in
    record r' { gauges = insert name (record g { value = g.value -ℤ pos 1 }) r'.gauges }

-- What a counter or a gauge shows: one that was never used shows 0.
unfoldable pub counter_value : String → Registry → ℕ
counter_value name r = elim (lookup name r.counters) [ none ↦ 0 | some c ↦ c.value ]

unfoldable pub gauge_value : String → Registry → ℤ
gauge_value name r = elim (lookup name r.gauges) [ none ↦ pos 0 | some g ↦ g.value ]

-- Incrementing one counter by any amount adds that amount to what it shows, also when the call
-- creates it, and changes no other counter.
pub counter_value-count_up :
    (name other : String) (amount : ℕ) (r : Registry)
    → counter_value other (count_up name amount r)
      ≡ ite (str_dec other name) (counter_value name r + amount) (counter_value other r)
unfolding counter_value count_up
counter_value-count_up name other amount r = grind (arith, lookup-insert)
