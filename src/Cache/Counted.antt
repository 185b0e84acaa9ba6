-- ===== src/Cache/Counted.antt =====
-- The hit rate of src/utils/metrics.py over the reads of a cache node of src/nodes/cache_node.py.
use distributed_sync_system.Base.{
  ℕ, suc, ◌+◌, ◌≡◌, ◌≢◌, inl, inr, refl, ◌∙◌, true, false, Option, none, some, List, [], ◌∷◌,
  String, arith, length, ℤ, pos, Option-cases, Outcome-cases, Outcome, returned, raised, Bool, ap,
  sym, Bool-cases, ◌==◌, if◌then◌else◌,
}
use text.Mathlib.TextEquality.{eq_iff}
use distributed_sync_system.Metrics.{
  Registry, count_up, set_gauge, gauge, counter_value, counter_value-count_up,
}
use distributed_sync_system.Metrics.Report.{cache_hit_rate}
use distributed_sync_system.Cache.Lru.{
  CacheEntry, LruCache, MesiState, evict, put, get, exclusive, shared,
}
use distributed_sync_system.Cache.Node.{
  CacheNode, PeekReply, ReadReply, hit, miss, is_valid, put_entry, fill, read_miss, read,
  fetch_from_peers, load_from_memory,
}

-- The hits and the misses that were counted.
abbrev pub reads_counted : Registry → ℕ × ℕ
reads_counted r = (counter_value "cache_hits_total" r, counter_value "cache_misses_total" r)

-- One more of the reads: a hit, or a miss.
unfoldable pub count_one : Bool → ℕ × ℕ → ℕ × ℕ
count_one true (hits, misses) = (suc hits, misses)
count_one false (hits, misses) = (hits, suc misses)

-- The read is answered as a hit.
unfoldable pub is_hit : {V : Type 0} → Outcome (ReadReply V) → Bool
is_hit (returned (hit value state)) = true
is_hit (returned (miss value state)) = false
is_hit (raised e) = false

counted_other :
    (name : String) (r : Registry)
    → "cache_hits_total" ≢ name
    → "cache_misses_total" ≢ name
    → reads_counted (count_up name 1 r) ≡ reads_counted r
counted_other name r a b = ground (
  arith,
  counter_value-count_up name "cache_hits_total" 1 r,
  counter_value-count_up name "cache_misses_total" 1 r,
  a,
  b,
)

counted_gauge :
    (name : String) (v : ℤ) (r : Registry) → reads_counted (set_gauge name v r) ≡ reads_counted r
unfolding set_gauge gauge counter_value
counted_gauge name v r = ground arith

never : false ≡ true → ⊥
never e = cc e

not_evictions_hit : ◌≢◌ {A = String} "cache_hits_total" "cache_evictions_total"
not_evictions_hit e = never ((eq_iff "cache_hits_total" "cache_evictions_total").1 e)

not_evictions_miss : ◌≢◌ {A = String} "cache_misses_total" "cache_evictions_total"
not_evictions_miss e = never ((eq_iff "cache_misses_total" "cache_evictions_total").1 e)

hit_not_miss : ◌≢◌ {A = String} "cache_hits_total" "cache_misses_total"
hit_not_miss e = never ((eq_iff "cache_hits_total" "cache_misses_total").1 e)

miss_counted :
    (r : Registry)
    → reads_counted (count_up "cache_misses_total" 1 r) ≡ count_one false (reads_counted r)
unfolding count_one
miss_counted r = ground (
  arith,
  counter_value-count_up "cache_misses_total" "cache_hits_total" 1 r,
  counter_value-count_up "cache_misses_total" "cache_misses_total" 1 r,
  hit_not_miss,
)

hit_counted :
    (r : Registry)
    → reads_counted (count_up "cache_hits_total" 1 r) ≡ count_one true (reads_counted r)
unfolding count_one
hit_counted r = ground (
  arith,
  counter_value-count_up "cache_hits_total" "cache_hits_total" 1 r,
  counter_value-count_up "cache_hits_total" "cache_misses_total" 1 r,
  hit_not_miss,
)

counted_step :
    (hit : Bool) (rest n : ℕ) (old mid new : ℕ × ℕ)
    → mid ≡ count_one hit old
    → new.0 ≡ mid.0 + rest
    → new.0 + new.1 ≡ mid.0 + mid.1 + n
    → (new.0 ≡ old.0 + (if hit then suc rest else rest)) × (new.0 + new.1 ≡ old.0 + old.1 + suc n)
unfolding count_one
counted_step true rest n (oh, om) mid new e a b =
    let e0 : mid.0 ≡ suc oh = ap (λ p. p.0) e in
    let e1 : mid.1 ≡ om = ap (λ p. p.1) e in
    (omega (arith, a, b, e0, e1), omega (arith, a, b, e0, e1))
counted_step false rest n (oh, om) mid new e a b =
    let e0 : mid.0 ≡ oh = ap (λ p. p.0) e in
    let e1 : mid.1 ≡ suc om = ap (λ p. p.1) e in
    (omega (arith, a, b, e0, e1), omega (arith, a, b, e0, e1))

-- A read with its key, time and the answers of the peers.
abbrev pub Reading : Type 0 → Type 0
Reading V = String × ℕ × List (Option (PeekReply V))

module _ {V : Type 0} where
  put_counted :
      (key : String) (entry : CacheEntry V) (r : Registry) (c : LruCache V)
      → reads_counted (put key entry r c).1 ≡ reads_counted r
  unfolding put evict
  put_counted key entry r c =
      ground (arith, counted_other "cache_evictions_total" r not_evictions_hit not_evictions_miss)

  put_entry_counted :
      (key : String) (entry : CacheEntry V) (n : CacheNode V)
      → reads_counted (put_entry key entry n).0.metrics ≡ reads_counted n.metrics
  unfolding put_entry
  put_entry_counted key entry n =
      let p = put key entry n.metrics n.cache in
      elim (Outcome-cases p.2) [
        | inl (k, e) ↦
            rw (e, put_entry)
              (counted_gauge "cache_size" (pos (length p.0.store)) p.1
                ∙ put_counted key entry n.metrics n.cache)
        | inr (x, e) ↦ rw (e, put_entry) (put_counted key entry n.metrics n.cache)
      ]

  fill_counted :
      (key : String) (now : ℕ) (state : MesiState) (version : ℕ) (value : Option V)
      (n : CacheNode V)
      → reads_counted (fill key now state version value n).0.metrics ≡ reads_counted n.metrics
  unfolding fill
  fill_counted key now state version none n = refl
  fill_counted key now state version (some v) n =
      let entry : CacheEntry V = record {
        key = key;
        value = some v;
        state = state;
        version = version;
        last_access = now;
        dirty = false;
      } in
      elim (Outcome-cases (put_entry key entry n).1) [
        | inl (k, e) ↦ rw (e, fill) (put_entry_counted key entry n)
        | inr (x, e) ↦ rw (e, fill) (put_entry_counted key entry n)
      ]

  fill-is_hit :
      (key : String) (now : ℕ) (state : MesiState) (version : ℕ) (value : Option V)
      (n : CacheNode V)
      → is_hit (fill key now state version value n).1 ≡ false
  unfolding fill is_hit
  fill-is_hit key now state version none n = refl
  fill-is_hit key now state version (some v) n =
      let entry : CacheEntry V = record {
        key = key;
        value = some v;
        state = state;
        version = version;
        last_access = now;
        dirty = false;
      } in
      elim (Outcome-cases (put_entry key entry n).1) [
        | inl (k, e) ↦ rw (e, fill) refl
        | inr (x, e) ↦ rw (e, fill) refl
      ]

  -- What a read does to the counters fits its answer.
  abbrev IsCounted : CacheNode V → CacheNode V × Outcome (ReadReply V) → Type 0
  IsCounted n r = reads_counted r.0.metrics ≡ count_one (is_hit r.1) (reads_counted n.metrics)

  filled-IsCounted :
      (key : String) (now : ℕ) (state : MesiState) (version : ℕ) (value : Option V)
      (n : CacheNode V)
      → IsCounted n (
          fill key now state version value
            (record n { metrics = count_up "cache_misses_total" 1 n.metrics }))
  filled-IsCounted key now state version value n =
      let n' : CacheNode V = record n { metrics = count_up "cache_misses_total" 1 n.metrics } in
      fill_counted key now state version value n'
      ∙ miss_counted n.metrics
      ∙ ap (λ b. count_one b (reads_counted n.metrics))
          (sym (fill-is_hit key now state version value n'))

  read_miss-IsCounted :
      (key : String) (now : ℕ) (answers : List (Option (PeekReply V))) (n : CacheNode V)
      → IsCounted n (read_miss key now answers n)
  unfolding read_miss
  read_miss-IsCounted key now answers n = elim (Option-cases (fetch_from_peers answers)) [
    | inl e ↦ rw (e, read_miss) (filled-IsCounted key now exclusive 0 (load_from_memory key) n)
    | inr ((v, version), e) ↦ rw (e, read_miss) (filled-IsCounted key now shared version (some v) n)
  ]

  read-IsCounted :
      (key : String) (now : ℕ) (answers : List (Option (PeekReply V))) (n : CacheNode V)
      → IsCounted n (read key now answers n)
  unfolding read is_hit
  read-IsCounted key now answers n =
      let looked : CacheNode V = record n { cache = (get key now n.cache).0 } in
      elim (Option-cases (get key now n.cache).1) [
        | inl e ↦ rw (e, read) (read_miss-IsCounted key now answers looked)
        | inr (entry, e) ↦ elim (Bool-cases (is_valid entry.state)) [
          | inl v ↦ rw (e, read) (rw v (hit_counted n.metrics))
          | inr v ↦ rw (e, read) (rw v (read_miss-IsCounted key now answers looked))
        ]
      ]

  unfoldable pub read_each : List (Reading V) → CacheNode V → CacheNode V
  read_each [] n = n
  read_each ((key, now, answers) ∷ rs) n = read_each rs (read key now answers n).0

  -- How many of the reads are answered as a hit.
  unfoldable pub hits_among : List (Reading V) → CacheNode V → ℕ
  hits_among [] n = 0
  hits_among ((key, now, answers) ∷ rs) n =
      let r = read key now answers n in
      let rest = hits_among rs r.0 in if is_hit r.1 then suc rest else rest

  -- The reads are counted, from the numbers before.
  abbrev IsCountedEach : List (Reading V) → CacheNode V → Type 0
  IsCountedEach rs n =
      let old = reads_counted n.metrics in
      let new = reads_counted (read_each rs n).metrics in
      (new.0 ≡ old.0 + hits_among rs n) × (new.0 + new.1 ≡ old.0 + old.1 + length rs)

  reads-IsCountedEach : (rs : List (Reading V)) (n : CacheNode V) → IsCountedEach rs n
  unfolding read_each hits_among
  reads-IsCountedEach [] n = (omega arith, omega arith)
  reads-IsCountedEach ((key, now, answers) ∷ rs) n =
      let r = read key now answers n in
      let (a, b) = reads-IsCountedEach rs r.0 in
      counted_step (is_hit r.1) (hits_among rs r.0) (length rs) (reads_counted n.metrics)
        (reads_counted r.0.metrics) (reads_counted (read_each rs r.0).metrics)
        (read-IsCounted key now answers n) a b

  -- After any reads of a node that had counted none, the hit rate is the number of the reads that were
  -- answered as a hit, over the number of the reads, also of those that an exception ends. Without
  -- a read it is nought over one.
  pub cache_hit_rate_lem :
      (rs : List (Reading V)) (n : CacheNode V)
      → reads_counted n.metrics ≡ (0, 0)
      → cache_hit_rate (read_each rs n).metrics
        ≡ (if length rs == 0 then (0, 1) else (hits_among rs n, length rs))
  unfolding cache_hit_rate
  cache_hit_rate_lem rs n none_yet =
      let (a, b) = reads-IsCountedEach rs n in
      let e0 : counter_value "cache_hits_total" n.metrics ≡ 0 = ap (λ p. p.0) none_yet in
      let e1 : counter_value "cache_misses_total" n.metrics ≡ 0 = ap (λ p. p.1) none_yet in
      ground (arith, a, b, e0, e1)
