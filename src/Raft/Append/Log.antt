-- ===== src/Raft/Append/Log.antt =====
-- The loop of `handle_append_entries` that stores the entries (src/consensus/raft.py).
use distributed_sync_system.Base.{
  suc, ◌-◌, Option, none, some, List, [], ◌∷◌, ◌++◌, ℤ, pos, negsuc, ◌+ℤ◌, ltb_ℤ, leb, ◌==◌,
  if◌then◌else◌, length, get_elem?, take, Outcome, returned, raised, index_error,
}
use distributed_sync_system.Raft.State.{LogEntry}

-- `l[i]`: a negative index counts from the end. `none` is an IndexError.
unfoldable pub get_item {ℓ} : {A : Type ℓ} → List A → ℤ → Option A
get_item l (pos i) = get_elem? l i
get_item l (negsuc k) = if leb (suc k) (length l) then get_elem? l (length l - suc k) else none

-- `l[:i]`, and so there.
unfoldable pub slice_to {ℓ} : {A : Type ℓ} → List A → ℤ → List A
slice_to l (pos i) = take i l
slice_to l (negsuc k) = take (length l - suc k) l

module _ {C : Type 0} where
  -- One round of the loop: the log after it, or `none` where reading the old entry raises.
  unfoldable pub place : ℤ → LogEntry C → List (LogEntry C) → Option (List (LogEntry C))
  unfolding get_item slice_to
  place idx entry log =
      if ltb_ℤ idx (pos (length log))
      then elim (get_item log idx) [
        | none ↦ none
        | some old ↦
            if old.term == entry.term then some log else some (slice_to log idx ++ entry ∷ [])
      ]
      else some (log ++ entry ∷ [])

  -- The loop, from index `idx` on: the log when it ended, and how it ended.
  unfoldable pub append_entries :
      ℤ → List (LogEntry C) → List (LogEntry C) → List (LogEntry C) × Outcome (Unit {0})
  unfolding place
  append_entries idx [] log = (log, returned tt)
  append_entries idx (entry ∷ entries) log = elim (place idx entry log) [
    | none ↦ (log, raised index_error)
    | some log' ↦ append_entries (idx +ℤ pos 1) entries log'
  ]
