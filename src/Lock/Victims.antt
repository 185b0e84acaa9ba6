-- ===== src/Lock/Victims.antt =====
-- Whom the deadlock resolution of src/nodes/lock_manager.py aborts, and what that leaves.
use distributed_sync_system.Base.{
  ℕ, ◌≤◌, ◌≡◌, refl, sym, subst, ◌∙◌, ◌⊎◌, inl, inr, true, false, none, some, List, [], ◌∷◌, String,
  Dict, lookup, lookup-insert, contains, discard, arith, ltb, Bool-cases, Option-cases, ap,
}
use distributed_sync_system.Lock.State.{LockRequest, LockState, LockManager, is_held_by}
use distributed_sync_system.Lock.Deadlock.{
  youngest, later_of, forget_shared, abort_at, abort, lock_keys, resolve_deadlock,
}
use distributed_sync_system.Lock.Cycles.{find_cycles}

-- Every request of the table that is of a client on the cycle is no younger than `t`.
abbrev pub NoneLater : List String → ℕ → Dict LockRequest → Type 0
NoneLater cycle t [] = Unit {0}
NoneLater cycle t ((k, r) ∷ rs) =
    (contains r.client_id cycle ≡ true → r.timestamp ≤ t) × NoneLater cycle t rs

-- The request is in the table.
abbrev pub InTable : LockRequest → Dict LockRequest → Type 0
InTable v [] = ⊥
InTable v ((k, r) ∷ rs) = (v ≡ r) ⊎ InTable v rs

NoneLater-mono :
    (cycle : List String) (t u : ℕ) (rs : Dict LockRequest)
    → t ≤ u
    → NoneLater cycle t rs
    → NoneLater cycle u rs
NoneLater-mono cycle t u [] h n = tt
NoneLater-mono cycle t u ((k, r) ∷ rs) h n =
    ((λ c. omega (arith, n.0 c)), NoneLater-mono cycle t u rs h n.1)

youngest-none :
    (cycle : List String) (rs : Dict LockRequest)
    → youngest cycle rs ≡ none
    → (t : ℕ) → NoneLater cycle t rs
unfolding youngest
youngest-none cycle [] h t = tt
youngest-none cycle ((k, r) ∷ rs) h t =
    ((λ c. absurd (ground arith)), youngest-none cycle rs (ground arith) t)

-- The victim is a request of the table, of a client on the cycle, and none of a client on the cycle
-- is younger.
pub youngest_lem :
    (cycle : List String) (rs : Dict LockRequest) (v : LockRequest)
    → youngest cycle rs ≡ some v
    → InTable v rs × (contains v.client_id cycle ≡ true) × NoneLater cycle v.timestamp rs
unfolding youngest later_of
youngest_lem cycle [] v h = absurd (cc)
youngest_lem cycle ((k, r) ∷ rs) v h = elim (Option-cases (youngest cycle rs)) [
  | inl e ↦
      let same : v ≡ r = ground arith in
      (inl same, ground arith, ((λ _. ground arith), youngest-none cycle rs e v.timestamp))
  | inr (s, e) ↦
      let (i, c, n) = youngest_lem cycle rs s e in
      elim (Bool-cases (contains r.client_id cycle)) [
        | inr off ↦
            let same : v ≡ s = ground arith in
            (
              inr (subst (λ w. InTable w rs) (sym same) i),
              ground arith,
              ((λ on. cc), subst (λ w. NoneLater cycle w.timestamp rs) (sym same) n),
            )
        | inl on ↦ elim (Bool-cases (ltb r.timestamp s.timestamp)) [
          | inl less ↦
              let same : v ≡ s = ground arith in
              (
                inr (subst (λ w. InTable w rs) (sym same) i),
                ground arith,
                ((λ _. ground arith), subst (λ w. NoneLater cycle w.timestamp rs) (sym same) n),
              )
          | inr more ↦
              let same : v ≡ r = ground arith in
              (
                inl same,
                ground arith,
                (
                  (λ _. ground arith),
                  NoneLater-mono cycle s.timestamp v.timestamp rs (ground arith) n,
                ),
              )
        ]
      ]
]

-- The locks that a client holds alone.
abbrev pub HoldsNone : String → LockManager → Type 0
HoldsNone client m =
    (k : String) (ls : LockState)
    → lookup k m.locks ≡ some ls
    → is_held_by ls.exclusive_holder client ≡ false

forget_shared-HoldsNone :
    (key client : String) (m : LockManager)
    → HoldsNone client m
    → HoldsNone client (forget_shared key client m)
      × ((forget_shared key client m).wait_for ≡ m.wait_for)
unfolding forget_shared
forget_shared-HoldsNone key client m h = elim (Option-cases (lookup key m.locks)) [
  | inl e ↦ rw (e, forget_shared) (h, refl)
  | inr (ls, e) ↦
      rw (e, forget_shared)
        (
          (λ k l q. ground (
            arith,
            lookup-insert key k (record ls { shared_holders = discard client ls.shared_holders })
                m.locks,
            h key ls e,
            h k l,
          )),
          refl,
        )
]

abort_at-HoldsNone :
    (key client : String) (m : LockManager)
    → HoldsNone client m
    → HoldsNone client (abort_at key client m) × ((abort_at key client m).wait_for ≡ m.wait_for)
unfolding abort_at
abort_at-HoldsNone key client m h = elim (Option-cases (lookup key m.locks)) [
  | inl e ↦ rw (e, abort_at) (h, refl)
  | inr (ls, e) ↦ rw (e, abort_at) (rw (h key ls e) (forget_shared-HoldsNone key client m h))
]

abort-wait_for :
    (keys : List String) (client : String) (m : LockManager)
    → HoldsNone client m
    → (abort keys client m).wait_for ≡ m.wait_for
unfolding abort
abort-wait_for [] client m h = refl
abort-wait_for (key ∷ keys) client m h =
    let (h', e) = abort_at-HoldsNone key client m h in
    abort-wait_for keys client (abort_at key client m) h' ∙ e

-- If the victim holds no lock alone, its abortion takes no edge from the wait-for graph: the search
-- finds the same cycles again in the next round.
pub resolve_deadlock_again :
    (cycle : List String) (m : LockManager) (v : LockRequest)
    → youngest cycle m.client_requests ≡ some v
    → HoldsNone v.client_id m
    → find_cycles (resolve_deadlock cycle m).wait_for ≡ find_cycles m.wait_for
unfolding resolve_deadlock
resolve_deadlock_again cycle m v e h =
    rw (e, resolve_deadlock) (ap find_cycles (abort-wait_for (lock_keys m.locks) v.client_id m h))
