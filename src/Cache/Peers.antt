-- ===== src/Cache/Peers.antt =====
-- Cache nodes of src/nodes/cache_node.py among each other. The operations of different nodes come one
-- after the other here; the peers that a broadcast reaches are given.
use distributed_sync_system.Base.{
  ℕ, suc, ◌<◌, ◌≡◌, refl, subst, ap, ◌∙◌, true, false, Option, none, some, List, [], ◌∷◌, String,
  Dict, lookup, contains, if◌then◌else◌, arith, Option-cases, inl, inr, returned,
}
use distributed_sync_system.Cache.Lru.{CacheEntry, MesiState, modified, exclusive, shared, invalid}
use distributed_sync_system.Cache.Node.{
  CacheNode, PeekReply, hit, is_valid, is_exclusive, fetch_from_peers, read, write, invalidate,
  peek,
}
use distributed_sync_system.Cache.Found.{shown, peek-Missing, invalidate-Missing, peek-some}
use distributed_sync_system.Cache.Reads.{Fetched, read-Missing, read_valid}
use distributed_sync_system.Cache.Writes.{write_tells, write_silent}

valid_of_exclusive : (s : MesiState) → is_exclusive s ≡ true → is_valid s ≡ true
valid_of_exclusive modified h = refl
valid_of_exclusive exclusive h = refl
valid_of_exclusive shared h = cc
valid_of_exclusive invalid h = cc

module _ {V : Type 0} where
  -- The broadcast: each node of the list that it reaches handles the request.
  unfoldable pub broadcast_invalidate :
      String → ℕ → List String → Dict (CacheNode V) → Dict (CacheNode V)
  broadcast_invalidate key now reached [] = []
  broadcast_invalidate key now reached ((name, n) ∷ nodes) =
      (name, if contains name reached then invalidate key now n else n)
      ∷ broadcast_invalidate key now reached nodes

  lookup-broadcast_invalidate :
      (key name : String) (now : ℕ) (reached : List String) (nodes : Dict (CacheNode V))
      → lookup name (broadcast_invalidate key now reached nodes) ≡ elim (lookup name nodes) [
        | none ↦ none
        | some n ↦ some (if contains name reached then invalidate key now n else n)
      ]
  unfolding lookup broadcast_invalidate
  lookup-broadcast_invalidate key name now reached [] = refl
  lookup-broadcast_invalidate key name now reached ((j, n) ∷ nodes) =
      ground (arith, lookup-broadcast_invalidate key name now reached nodes)

  -- A node's write with the peers' part of it: the node and the peers after it.
  unfoldable pub write_among :
      String
      → ℕ
      → Option V
      → List String
      → CacheNode V
      → Dict (CacheNode V)
      → CacheNode V × Dict (CacheNode V)
  write_among key now value reached n peers =
      let (n', told, ended) = write key now value n in
      (n', if told then broadcast_invalidate key now reached peers else peers)

  -- After a write by a node that did not have the key modified or exclusive, the node has the value
  -- modified, and a peer that the broadcast reached shows no value of the key any more.
  pub write_among-alone :
      (key : String) (now : ℕ) (v : V) (reached : List String) (n : CacheNode V)
      (peers : Dict (CacheNode V)) (name : String) (peer : CacheNode V)
      → 0 < n.cache.capacity
      → ((e : CacheEntry V) → lookup key n.cache.store ≡ some e → is_exclusive e.state ≡ false)
      → lookup name peers ≡ some peer
      → contains name reached ≡ true
      → let r = write_among key now (some v) reached n peers in
        ((version : ℕ) × (peek key r.0 ≡ shown (some v) modified version))
        × (p : CacheNode V) × (lookup name r.1 ≡ some p)
        × ((peek key p).value ≡ none)
  unfolding write_among
  write_among-alone key now v reached n peers name peer p h q c =
      let (own, told, ended) = write_tells key now (some v) n p h in
      (
        own,
        invalidate key now peer,
        rw (told, write_among)
            (ground (arith, lookup-broadcast_invalidate key name now reached peers)),
        peek-Missing key (invalidate key now peer) (invalidate-Missing key now peer),
      )

  peek-shown :
      (k : String) (n : CacheNode V) (v : V) (state : MesiState) (version : ℕ)
      → peek k n ≡ shown (some v) state version
      → (e : CacheEntry V) × (lookup k n.cache.store ≡ some e)
        × (is_valid e.state ≡ true)
        × (e.value ≡ some v)
        × (e.state ≡ state)
  unfolding peek
  peek-shown k n v state version q = elim (Option-cases (lookup k n.cache.store)) [
    | inl h ↦ absurd (ground arith)
    | inr (e, h) ↦ (e, h, ground arith, ground arith, ground arith)
  ]

  fetch_one :
      (k : String) (a : CacheNode V) (e : CacheEntry V) (v : V)
      → peek k a ≡ shown (some v) e.state e.version
      → fetch_from_peers (some (peek k a) ∷ []) ≡ some (v, e.version)
  unfolding fetch_from_peers
  fetch_one k a e v q = rw q refl

  -- A node that reads a key which one other node has exclusive or modified shares its value, but the
  -- other keeps the key to itself: the other's next write tells nobody, and the reader goes on
  -- reading the old value, whatever its peers would say.
  pub stale_read :
      (key : String) (t₁ t₂ t₃ : ℕ) (v w : V) (answers : List (Option (PeekReply V)))
      (a b : CacheNode V) (e : CacheEntry V)
      → 0 < b.cache.capacity
      → lookup key a.cache.store ≡ some e
      → is_exclusive e.state ≡ true
      → e.value ≡ some v
      → lookup key b.cache.store ≡ none
      → let b' = (read key t₁ (some (peek key a) ∷ []) b).0 in
        let r = write key t₂ (some w) a in
        (r.1 ≡ false)
        × (peek key r.0 ≡ shown (some w) modified (suc e.version))
        × ((read key t₃ answers b').1 ≡ returned (hit (some v) shared))
  stale_read key t₁ t₂ t₃ v w answers a b e p h x q n =
      let b' = (read key t₁ (some (peek key a) ∷ []) b).0 in
      let seen =
        peek-some key a e h (valid_of_exclusive e.state x)
        ∙ ap (λ u. shown u e.state e.version) q in
      let got =
        subst (λ f. Fetched key f (read key t₁ (some (peek key a) ∷ []) b))
          (fetch_one key a e v seen) (read-Missing key t₁ (some (peek key a) ∷ []) b p (inl n)) in
      let (e', there, valid, value, state) = peek-shown key b' v shared e.version got.1 in
      let silent = write_silent key t₂ (some w) a e h x in
      (
        silent.1,
        silent.0,
        (read_valid key t₃ answers b' e' there valid).0 ∙ ground (arith, value, state),
      )
