-- ===== src/Cache/Calls.antt =====
-- Sequences of calls of the LRU store of src/nodes/cache_node.py, and what a call does to the entries.
use distributed_sync_system.Base.{
  ℕ, ◌≤◌, ◌<◌, ◌≡◌, refl, ap, ◌∙◌, true, false, List, [], ◌∷◌, ◌++◌, String, contains, discard,
  contains-discard, Distinct, length, drop, leb, arith, Bool-cases, inl, inr,
}
use distributed_sync_system.Metrics.{Registry}
use distributed_sync_system.Cache.Lru.{CacheEntry, LruCache, get, put, all_keys}
use distributed_sync_system.Cache.Order.{
  touch, after_get, after_put, get-keys, put-keys, Distinct-snoc, Distinct-discard, length-snoc,
  length-discard,
}

pub data Call (V : Type 0) : Type 0 where
  get_call : String → ℕ → Call V
  put_call : String → CacheEntry V → Call V

unfoldable pub run_calls :
    {V : Type 0} → List (Call V) → LruCache V × Registry → LruCache V × Registry
run_calls [] c = c
run_calls (get_call k now ∷ cs) (c, r) = run_calls cs ((get k now c).0, r)
run_calls (put_call k e ∷ cs) (c, r) = let p = put k e r c in run_calls cs (p.0, p.1)

-- The keys after the calls, in terms of keys alone.
unfoldable pub after_calls : {V : Type 0} → ℕ → List (Call V) → List String → List String
after_calls capacity [] ks = ks
after_calls capacity (get_call k now ∷ cs) ks = after_calls capacity cs (after_get k ks)
after_calls capacity (put_call k e ∷ cs) ks = after_calls capacity cs (after_put capacity k ks)

-- No key twice, and no more than there is room for.
abbrev pub Fits : ℕ → List String → Type 0
Fits capacity ks = Distinct ks × (length ks ≤ capacity)

touch-Fits :
    (capacity : ℕ) (k : String) (ks : List String)
    → Fits capacity ks
    → contains k ks ≡ true
    → Fits capacity (touch k ks)
unfolding touch
touch-Fits capacity k ks (d, l) h = (
  Distinct-snoc k (discard k ks) (ground (arith, contains-discard k k ks))
      (Distinct-discard k ks d),
  omega (arith, length-snoc k (discard k ks), length-discard k ks d h),
)

after_get-Fits :
    (capacity : ℕ) (k : String) (ks : List String)
    → Fits capacity ks
    → Fits capacity (after_get k ks)
unfolding after_get
after_get-Fits capacity k ks f = elim (Bool-cases (contains k ks)) [
  | inl h ↦ rw (h, after_get) (touch-Fits capacity k ks f h)
  | inr h ↦ rw (h, after_get) f
]

replaced-Fits :
    (capacity : ℕ) (k : String) (ks : List String)
    → 0 < capacity
    → Fits capacity ks
    → contains k ks ≡ false
    → Fits capacity (drop 1 ks ++ k ∷ [])
unfolding contains
replaced-Fits capacity k [] p f h = ((refl, tt), omega (arith, p))
replaced-Fits capacity k (j ∷ ks) p f h =
    (Distinct-snoc k ks (ground arith) f.0.1, omega (arith, length-snoc k ks, f.1))

after_put-Fits :
    (capacity : ℕ) (k : String) (ks : List String)
    → 0 < capacity
    → Fits capacity ks
    → Fits capacity (after_put capacity k ks)
unfolding after_put contains
after_put-Fits capacity k ks p f = elim (Bool-cases (contains k ks)) [
  | inl h ↦ rw (h, after_put) (touch-Fits capacity k ks f h)
  | inr h ↦ elim (Bool-cases (leb capacity (length ks))) [
    | inl full ↦ rw (h, full, after_put) (replaced-Fits capacity k ks p f h)
    | inr room ↦
        rw (h, room, after_put) (Distinct-snoc k ks h f.0, ground (arith, length-snoc k ks))
  ]
]

module _ {V : Type 0} where
  get-capacity : (k : String) (now : ℕ) (c : LruCache V) → (get k now c).0.capacity ≡ c.capacity
  unfolding get
  get-capacity k now c = ground arith

  run_calls_from :
      (cs : List (Call V)) (c : LruCache V) (r : Registry) (capacity : ℕ) (ks : List String)
      → 0 < capacity
      → c.capacity ≡ capacity
      → all_keys c.store ≡ ks
      → Fits capacity ks
      → let c' = (run_calls cs (c, r)).0 in
        (all_keys c'.store ≡ after_calls capacity cs ks)
        × (c'.capacity ≡ capacity)
        × Fits capacity (after_calls capacity cs ks)
  unfolding run_calls after_calls
  run_calls_from [] c r capacity ks p q e f = (e, q, f)
  run_calls_from (get_call k now ∷ cs) c r capacity ks p q e f =
      run_calls_from cs (get k now c).0 r capacity (after_get k ks) p (get-capacity k now c ∙ q)
        (get-keys k now c ∙ ap (after_get k) e) (after_get-Fits capacity k ks f)
  run_calls_from (put_call k x ∷ cs) c r capacity ks p q e f =
      let done = put-keys k x r c (omega (arith, p, q)) in
      run_calls_from cs (put k x r c).0 (put k x r c).1 capacity (after_put capacity k ks) p
        (done.1 ∙ q) (ground (arith, done.0, q, e)) (after_put-Fits capacity k ks p f)

  -- After any calls on a store with room for at least one entry, the keys are those that were used
  -- last, in the order of their last use, none twice, and never more than the capacity.
  pub run_calls-keys :
      (cs : List (Call V)) (c : LruCache V) (r : Registry)
      → 0 < c.capacity
      → Fits c.capacity (all_keys c.store)
      → let c' = (run_calls cs (c, r)).0 in
        (all_keys c'.store ≡ after_calls c.capacity cs (all_keys c.store))
        × (c'.capacity ≡ c.capacity)
        × Fits c.capacity (after_calls c.capacity cs (all_keys c.store))
  run_calls-keys cs c r p f = run_calls_from cs c r c.capacity (all_keys c.store) p refl refl f
