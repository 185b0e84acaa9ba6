-- ===== src/Cache/Order.antt =====
-- The order and the bound of the LRU store of src/nodes/cache_node.py.

use distributed_sync_system.Base.{
  ℕ, suc, ◌<◌, ◌≡◌, refl, ◌⊎◌, ap, ◌∙◌, true, false, Option, none, some, List, [], ◌∷◌, ◌++◌,
  String, Dict, str_dec, ite, lookup, insert, erase, contains, add, discard, contains-discard,
  Distinct, length, drop, leb, if◌then◌else◌, arith, Bool-cases, Option-cases, inl, inr, returned,
}
use distributed_sync_system.Metrics.{Registry}
use distributed_sync_system.Cache.Lru.{CacheEntry, LruCache, get, put, evict, move_to_end, all_keys}

-- The keys in order of their last use, oldest first, in terms of keys alone.
unfoldable pub touch : String → List String → List String
touch k ks = discard k ks ++ k ∷ []

unfoldable pub after_get : String → List String → List String
after_get k ks = if contains k ks then touch k ks else ks

unfoldable pub after_put : ℕ → String → List String → List String
after_put capacity k ks =
    if contains k ks
    then touch k ks
    else if leb capacity (length ks)
    then drop 1 ks ++ k ∷ []
    else ks ++ k ∷ []

pub contains-snoc :
    (x y : String) (xs : List String)
    → contains x (xs ++ y ∷ []) ≡ ite (str_dec x y) true (contains x xs)
unfolding contains
contains-snoc x y [] = refl
contains-snoc x y (z ∷ xs) = ground (arith, contains-snoc x y xs)

add_there : (k : String) (ks : List String) → contains k ks ≡ true → add k ks ≡ ks
unfolding add contains
add_there k [] h = cc
add_there k (j ∷ ks) h = ground (arith, add_there k ks)

add_new : (k : String) (ks : List String) → contains k ks ≡ false → add k ks ≡ ks ++ k ∷ []
unfolding add contains
add_new k [] h = refl
add_new k (j ∷ ks) h = ground (arith, add_new k ks)

pub Distinct-snoc :
    (k : String) (ks : List String) → contains k ks ≡ false → Distinct ks → Distinct (ks ++ k ∷ [])
unfolding contains
Distinct-snoc k [] h d = (refl, tt)
Distinct-snoc k (j ∷ ks) h d =
    (ground (arith, d.0, contains-snoc j k ks), Distinct-snoc k ks (ground arith) d.1)

pub Distinct-discard : (k : String) (ks : List String) → Distinct ks → Distinct (discard k ks)
unfolding discard contains
Distinct-discard k [] d = tt
Distinct-discard k (j ∷ ks) d = ground (arith, Distinct-discard k ks d.1, contains-discard j k ks)

discard_absent : (k : String) (ks : List String) → contains k ks ≡ false → discard k ks ≡ ks
unfolding discard contains
discard_absent k [] h = refl
discard_absent k (j ∷ ks) h = ground (arith, discard_absent k ks)

pub length-snoc : (k : String) (ks : List String) → length (ks ++ k ∷ []) ≡ suc (length ks)
length-snoc k [] = refl
length-snoc k (j ∷ ks) = ap suc (length-snoc k ks)

pub length-discard :
    (k : String) (ks : List String)
    → Distinct ks
    → contains k ks ≡ true
    → suc (length (discard k ks)) ≡ length ks
unfolding discard contains
length-discard k [] d h = cc
length-discard k (j ∷ ks) d h = ground (arith, length-discard k ks d.1, discard_absent k ks)

-- The victim of a store that is full, if there is one to be had.
abbrev pub victim : ℕ → String → List String → Option String
victim capacity k [] = none
victim capacity k (old ∷ ks) =
    if contains k (old ∷ ks)
    then none
    else if leb capacity (length (old ∷ ks))
    then some old
    else none

victim-none :
    (capacity : ℕ) (k : String) (ks : List String)
    → (contains k ks ≡ true) ⊎ (leb capacity (length ks) ≡ false)
    → victim capacity k ks ≡ none
victim-none capacity k [] h = refl
victim-none capacity k (old ∷ ks) h = ground arith

victim_first :
    (capacity : ℕ) (k old : String) (ks rest : List String)
    → ks ≡ old ∷ rest
    → contains k ks ≡ false
    → leb capacity (length ks) ≡ true
    → victim capacity k ks ≡ some old
victim_first capacity k old [] rest e h f = cc
victim_first capacity k old (j ∷ ks) rest e h f = ground arith

module _ {V : Type 0} where
  all_keys-insert :
      (k : String) (e : CacheEntry V) (s : Dict (CacheEntry V))
      → all_keys (insert k e s) ≡ add k (all_keys s)
  unfolding all_keys insert add
  all_keys-insert k e [] = refl
  all_keys-insert k e ((j, f) ∷ s) = ground (arith, all_keys-insert k e s)

  all_keys-erase :
      (k : String) (s : Dict (CacheEntry V)) → all_keys (erase k s) ≡ discard k (all_keys s)
  unfolding all_keys erase discard
  all_keys-erase k [] = refl
  all_keys-erase k ((j, f) ∷ s) = ground (arith, all_keys-erase k s)

  all_keys-snoc :
      (k : String) (e : CacheEntry V) (s : Dict (CacheEntry V))
      → all_keys (s ++ (k, e) ∷ []) ≡ all_keys s ++ k ∷ []
  unfolding all_keys
  all_keys-snoc k e [] = refl
  all_keys-snoc k e ((j, f) ∷ s) = ap (◌∷◌ j) (all_keys-snoc k e s)

  contains-lookup :
      (k : String) (s : Dict (CacheEntry V))
      → contains k (all_keys s) ≡ elim (lookup k s) [ none ↦ false | some e ↦ true ]
  unfolding contains lookup all_keys
  contains-lookup k [] = refl
  contains-lookup k ((j, f) ∷ s) = ground (arith, contains-lookup k s)

  length-all_keys : (s : Dict (CacheEntry V)) → length (all_keys s) ≡ length s
  unfolding all_keys
  length-all_keys [] = refl
  length-all_keys ((j, f) ∷ s) = ap suc (length-all_keys s)

  pub get-keys :
      (k : String) (now : ℕ) (c : LruCache V)
      → all_keys (get k now c).0.store ≡ after_get k (all_keys c.store)
  unfolding get move_to_end after_get touch
  get-keys k now c = elim (Option-cases (lookup k c.store)) [
    | inl e ↦ ground (arith, contains-lookup k c.store)
    | inr (x, e) ↦ ground (
      arith,
      contains-lookup k c.store,
      all_keys-erase k c.store,
      all_keys-snoc k (record x { last_access = now }) (erase k c.store),
    )
  ]

  move_to_end-keys :
      (k : String) (e : CacheEntry V) (s : Dict (CacheEntry V))
      → all_keys (move_to_end k e s) ≡ touch k (all_keys s)
  unfolding move_to_end touch
  move_to_end-keys k e s = ground (arith, all_keys-erase k s, all_keys-snoc k e (erase k s))

  put_there :
      (k : String) (e : CacheEntry V) (metrics : Registry) (c : LruCache V) (x : CacheEntry V)
      → lookup k c.store ≡ some x
      → all_keys (put k e metrics c).0.store ≡ touch k (all_keys c.store)
  unfolding put touch
  put_there k e metrics c x h =
      let moved = move_to_end k x c.store in
      rw (h, put)
        (all_keys-insert k e moved
          ∙ ap (add k) (move_to_end-keys k x c.store)
          ∙ add_there k (touch k (all_keys c.store))
              (ground (arith, contains-snoc k k (discard k (all_keys c.store)))))

  evict-keys :
      (k : String) (e : CacheEntry V) (metrics : Registry) (c : LruCache V)
      (s : Dict (CacheEntry V))
      → 0 < length s
      → contains k (all_keys s) ≡ false
      → let r = evict k e metrics c s in
        (all_keys r.0.store ≡ drop 1 (all_keys s) ++ k ∷ [])
        × (r.0.capacity ≡ c.capacity)
        × ((old : String) × (rest : List String) × (all_keys s ≡ old ∷ rest)
            × (r.2 ≡ returned (some old)))
  unfolding evict all_keys contains
  evict-keys k e metrics c [] p h = absurd (omega arith)
  evict-keys k e metrics c ((j, f) ∷ s) p h = (
    ground (arith, all_keys-insert k e s, add_new k (all_keys s)),
    refl,
    (j, all_keys s, refl, refl),
  )

  -- A put into a store with room for at least one entry raises no exception; it tells the victim, the
  -- least recently used key of a full store that does not have the key, and leaves the keys in the
  -- order of their last use, without the victim and with the key last.
  pub put-keys :
      (k : String) (e : CacheEntry V) (metrics : Registry) (c : LruCache V)
      → 0 < c.capacity
      → let r = put k e metrics c in
        (all_keys r.0.store ≡ after_put c.capacity k (all_keys c.store))
        × (r.0.capacity ≡ c.capacity)
        × (r.2 ≡ returned (victim c.capacity k (all_keys c.store)))
  unfolding put after_put
  put-keys k e metrics c p = elim (Option-cases (lookup k c.store)) [
    | inr (x, h) ↦
        let there = put_there k e metrics c x h in
        rw (h, put)
          (ground
            (arith, there, contains-lookup k c.store, victim-none c.capacity k (all_keys c.store)))
    | inl h ↦ elim (Bool-cases (leb c.capacity (length c.store))) [
      | inl full ↦
          let out =
            evict-keys k e metrics c c.store (ground arith)
              (ground (arith, contains-lookup k c.store)) in
          let (old, rest, q, v) = out.2 in
          ground (
            arith,
            out.0,
            out.1,
            v,
            contains-lookup k c.store,
            length-all_keys c.store,
            victim_first c.capacity k old (all_keys c.store) rest q,
          )
      | inr room ↦ ground (
        arith,
        contains-lookup k c.store,
        all_keys-insert k e c.store,
        add_new k (all_keys c.store),
        length-all_keys c.store,
        victim-none c.capacity k (all_keys c.store),
      )
    ]
  ]
