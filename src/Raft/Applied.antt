-- ===== src/Raft/Applied.antt =====
-- What a round of `_apply_loop` (src/consensus/raft.py) hands to the state machine.
use distributed_sync_system.Base.{
  ℕ, zero, suc, ◌+◌, ◌-◌, ◌<◌, ◌≡◌, refl, ap, Option, some, pos, negsuc, ◌-ℤ◌, ◌≤ℤ◌, ◌<ℤ◌, arith,
  pos_part, upto, pos_part--ℤ, -ℤ_self, +ℤ-one, ◌∙◌, length, get_elem?, get_elem?-eq-some, Outcome,
  returned,
}
use distributed_sync_system.Raft.State.{RaftNode, LogEntry}
use distributed_sync_system.Raft.Append.{get_item}
use distributed_sync_system.Raft.Apply.{apply_round, catch_up, call_back}
use distributed_sync_system.Raft.Commit.{IsValid}

module _ {C : Type 0} where
  catch_up_next :
      (k : ℕ) (n : RaftNode C) (entry : Option (LogEntry C)) (x : LogEntry C)
      → negsuc 0 ≤ℤ n.last_applied
      → n.last_applied <ℤ n.commit_index
      → get_elem? n.log (upto n.last_applied) ≡ some x
      → catch_up (suc k) n entry
        ≡ catch_up k (record n { last_applied = pos (upto n.last_applied) }) (some x)
  unfolding catch_up get_item
  catch_up_next k n entry x low less g = ground (arith, +ℤ-one n.last_applied low)

  catch_up_lem :
      (k c : ℕ) (n : RaftNode C) (entry : Option (LogEntry C)) (e : LogEntry C)
      → n.commit_index ≡ pos c
      → upto n.last_applied + k ≡ c
      → negsuc 0 ≤ℤ n.last_applied
      → get_elem? n.log c ≡ some e
      → c < length n.log
      → catch_up (suc k) n entry ≡ (record n { last_applied = pos c }, some e, returned tt)
  unfolding catch_up
  catch_up_lem zero c n entry e h q l g s =
      let here : upto n.last_applied ≡ c = omega arith in
      ground (arith, catch_up_next zero n entry e)
  catch_up_lem (suc k) c n entry e h q l g s =
      let (x, there) = get_elem?-eq-some n.log (upto n.last_applied) (omega arith) in
      catch_up_next (suc k) n entry x l (ground arith) there
      ∙ catch_up_lem k c (record n { last_applied = pos (upto n.last_applied) }) (some x) e h
          (omega arith) (omega arith) g s

  -- A round that finds something to apply marks everything up to the commit index as applied and
  -- calls the callback once, with the entry at the commit index: the entries below it that the round
  -- marked, if there are any, are never handed to the state machine.
  pub apply_round_one :
      (c : ℕ) (n : RaftNode C) (entry : Option (LogEntry C))
      → IsValid n
      → n.commit_index ≡ pos c
      → n.last_applied <ℤ n.commit_index
      → (e : LogEntry C) × (get_elem? n.log c ≡ some e)
        × (apply_round n entry ≡ (record n { last_applied = pos c }, some e, returned e))
  unfolding apply_round
  apply_round_one c n entry v h less =
      let (e, there) = get_elem?-eq-some n.log c (ground arith) in
      let k = c - upto n.last_applied in
      let rounds : pos_part (n.commit_index -ℤ n.last_applied) ≡ suc k =
        ground (arith, pos_part--ℤ n.last_applied n.commit_index v.low v.applied) in
      let caught = catch_up_lem k c n entry e h (ground arith) v.low there (ground arith) in
      (
        e,
        there,
        rw rounds (
            ap
              (λ (r : RaftNode C × Option (LogEntry C) × Outcome (Unit {0})).
                let t : RaftNode C × Option (LogEntry C) × Outcome (LogEntry C) =
                  (r.0, r.1, call_back r.1 r.2) in
                t)
              caught),
      )

  -- A round that is woken with nothing to apply hands the entry of an earlier round over again, and
  -- raises an exception where there was none.
  pub apply_round_again :
      (n : RaftNode C) (entry : Option (LogEntry C))
      → n.last_applied ≡ n.commit_index
      → apply_round n entry ≡ (n, entry, call_back entry (returned tt))
  unfolding apply_round catch_up
  apply_round_again n entry h = rw (-ℤ_self n.last_applied n.commit_index h, catch_up) refl
