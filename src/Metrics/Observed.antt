-- ===== src/Metrics/Observed.antt =====
-- What a histogram of src/utils/metrics.py holds after some values, and what its `p99` makes of it.
use distributed_sync_system.Base.{
  ℕ, ◌+◌, ◌≡◌, refl, Bool, true, false, List, [], ◌∷◌, String, leb, ◌==◌, if◌then◌else◌, length,
  arith,
}
use distributed_sync_system.Metrics.Histograms.{
  Histogram, Counts, count_at, set_count, zero_counts, init, bump_counts, observe, or_default,
}

unfoldable pub observe_all : List ℕ → Histogram → Histogram
observe_all [] h = h
observe_all (v ∷ vs) h = observe_all vs (observe v h)

unfoldable pub has : ℕ → List ℕ → Bool
has b [] = false
has b (a ∷ bs) = if b == a then true else has b bs

-- No bound is listed twice.
abbrev pub Once : List ℕ → Type 0
Once [] = Unit {0}
Once (b ∷ bs) = (has b bs ≡ false) × Once bs

abbrev pub total : List ℕ → ℕ
total [] = 0
total (v ∷ vs) = v + total vs

-- How many of the values are at most the bound.
unfoldable pub up_to : ℕ → List ℕ → ℕ
up_to b [] = 0
up_to b (v ∷ vs) = (if leb v b then 1 else 0) + up_to b vs

count_at-set_count :
    (b a n : ℕ) (cs : Counts)
    → count_at b (set_count a n cs) ≡ (if b == a then n else count_at b cs)
unfolding count_at set_count
count_at-set_count b a n [] = ground arith
count_at-set_count b a n ((c, m) ∷ cs) = ground (arith, count_at-set_count b a n cs)

count_at-zero_counts :
    (b : ℕ) (bs : List ℕ) (cs : Counts) → count_at b cs ≡ 0 → count_at b (zero_counts bs cs) ≡ 0
unfolding zero_counts
count_at-zero_counts b [] cs h = h
count_at-zero_counts b (a ∷ bs) cs h =
    count_at-zero_counts b bs (set_count a 0 cs) (ground (arith, count_at-set_count b a 0 cs))

count_at-bump_other :
    (value b : ℕ) (bs : List ℕ) (cs : Counts)
    → has b bs ≡ false
    → count_at b (bump_counts value bs cs) ≡ count_at b cs
unfolding bump_counts has
count_at-bump_other value b [] cs h = refl
count_at-bump_other value b (a ∷ bs) cs h = ground (
  arith,
  count_at-bump_other value b bs cs,
  count_at-bump_other value b bs (set_count a (count_at a cs + 1) cs),
  count_at-set_count b a (count_at a cs + 1) cs,
)

count_at-bump_counts :
    (value b : ℕ) (bs : List ℕ) (cs : Counts)
    → Once bs
    → has b bs ≡ true
    → count_at b (bump_counts value bs cs) ≡ count_at b cs + (if leb value b then 1 else 0)
unfolding bump_counts has
count_at-bump_counts value b [] cs o h = cc
count_at-bump_counts value b (a ∷ bs) cs o h = ground (
  arith,
  count_at-bump_counts value b bs cs o.1,
  count_at-bump_counts value b bs (set_count a (count_at a cs + 1) cs) o.1,
  count_at-bump_other value a bs cs,
  count_at-bump_other value a bs (set_count a (count_at a cs + 1) cs),
  count_at-set_count b a (count_at a cs + 1) cs,
  count_at-set_count a a (count_at a cs + 1) cs,
)

observe_all-counts :
    (b : ℕ) (vs : List ℕ) (h : Histogram)
    → Once h.buckets
    → has b h.buckets ≡ true
    → let m = observe_all vs h in
      (count_at b m.bucket_counts ≡ count_at b h.bucket_counts + up_to b vs)
      × (m.count ≡ h.count + length vs)
      × (m.sum ≡ h.sum + total vs)
unfolding observe_all observe up_to
observe_all-counts b [] h o q = (omega arith, omega arith, omega arith)
observe_all-counts b (v ∷ vs) h o q = ground (
  arith,
  observe_all-counts b vs (observe v h) o q,
  count_at-bump_counts v b h.buckets h.bucket_counts o q,
)

-- After any values, a histogram with a bound listed once holds at the bound the number of the values
-- up to it, the larger bounds' counts including the smaller ones', with the number of all values and
-- their sum.
pub observe_all_lem :
    (b : ℕ) (vs : List ℕ) (name description : String) (first : ℕ) (rest : List ℕ)
    → Once (first ∷ rest)
    → has b (first ∷ rest) ≡ true
    → let m = observe_all vs (init name description (first ∷ rest)) in
      (count_at b m.bucket_counts ≡ up_to b vs) × (m.count ≡ length vs) × (m.sum ≡ total vs)
unfolding init or_default count_at
observe_all_lem b vs name description first rest o h = ground (
  arith,
  observe_all-counts b vs (init name description (first ∷ rest)) o h,
  count_at-zero_counts b (first ∷ rest) [] refl,
)
