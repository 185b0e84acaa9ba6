-- ===== src/Metrics/Histograms.antt =====
-- `Histogram` of src/utils/metrics.py. Values and bucket bounds are whole numbers of one unit (the
-- source's bounds are whole numbers of milliseconds).
use distributed_sync_system.Base.{
  ℕ, ◌+◌, ◌*◌, List, [], ◌∷◌, String, leb, ◌==◌, if◌then◌else◌, none, some, Option,
}

-- The counts by bound, in the order of the bounds.
abbrev pub Counts : Type 0
Counts = List (ℕ × ℕ)

pub record Histogram : Type 0 where
  pub name : String
  pub description : String
  pub buckets : List ℕ
  pub bucket_counts : Counts
  pub sum : ℕ
  pub count : ℕ

abbrev pub default_buckets : List ℕ
default_buckets = 1 ∷ 5 ∷ 10 ∷ 25 ∷ 50 ∷ 100 ∷ 250 ∷ 500 ∷ 1000 ∷ 2500 ∷ 5000 ∷ 10000 ∷ []

-- The entry of a bound, 0 where there is none.
unfoldable pub count_at : ℕ → Counts → ℕ
count_at b [] = 0
count_at b ((a, n) ∷ cs) = if b == a then n else count_at b cs

-- `counts[b] = n`
unfoldable pub set_count : ℕ → ℕ → Counts → Counts
set_count b n [] = (b, n) ∷ []
set_count b n ((a, m) ∷ cs) = if b == a then (a, n) ∷ cs else (a, m) ∷ set_count b n cs

-- `{b: 0 for b in buckets}`: a bound that is listed twice has one entry.
unfoldable pub zero_counts : List ℕ → Counts → Counts
unfolding set_count
zero_counts [] cs = cs
zero_counts (b ∷ bs) cs = zero_counts bs (set_count b 0 cs)

-- `buckets or DEFAULT_BUCKETS`
unfoldable pub or_default : List ℕ → List ℕ
or_default [] = default_buckets
or_default (b ∷ bs) = b ∷ bs

unfoldable pub init : String → String → List ℕ → Histogram
unfolding zero_counts or_default
init name description buckets = record {
  name = name;
  description = description;
  buckets = or_default buckets;
  bucket_counts = zero_counts (or_default buckets) [];
  sum = 0;
  count = 0;
}

-- The loop of `observe`.
unfoldable pub bump_counts : ℕ → List ℕ → Counts → Counts
unfolding set_count count_at
bump_counts value [] cs = cs
bump_counts value (b ∷ bs) cs =
    bump_counts value bs (if leb value b then set_count b (count_at b cs + 1) cs else cs)

unfoldable pub observe : ℕ → Histogram → Histogram
unfolding bump_counts
observe value h = record h {
  count = h.count + 1;
  sum = h.sum + value;
  bucket_counts = bump_counts value h.buckets h.bucket_counts;
}

-- The loop of `p99`: `target` is 0.99 * count, so both sides of its test are taken a hundredfold.
unfoldable pub p99_from : ℕ → Counts → ℕ → Option ℕ
p99_from cumulative [] count = none
p99_from cumulative ((b, n) ∷ cs) count =
    let rest = p99_from (cumulative + n) cs count in
    if leb (99 * count) (100 * (cumulative + n)) then some b else rest

-- `buckets[-1]`; the list is never empty.
unfoldable pub last : ℕ → List ℕ → ℕ
last d [] = d
last d (b ∷ bs) = last b bs

unfoldable pub p99 : Histogram → ℕ
unfolding p99_from last
p99 h =
    if h.count == 0
    then 0
    else elim (p99_from 0 h.bucket_counts h.count) [ none ↦ last 0 h.buckets | some b ↦ b ]
