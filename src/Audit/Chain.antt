-- ===== src/Audit/Chain.antt =====
-- What the logger of security/audit_logger.py writes verifies.
use distributed_sync_system.Base.{
  ◌≢◌, Bool, true, false, if◌then◌else◌, ◌==◌, ◌∙◌, length, ◌+◌, ap, sym, ℕ, suc, ◌≡◌, refl, none,
  some, List, [], ◌∷◌, ◌++◌, String, arith,
}
use distributed_sync_system.Audit.Log.{
  Content, AuditEntry, AuditLogger, valid, tampered_at, verify_integrity, last_entry, restore,
  Request, entry_of, log, verify_from,
}

-- The life of a log file: calls of the loggers that have it open, each by its number, and restarts of
-- their processes, maybe under another name.
pub data Step (D : Type 0) : Type 0 where
  logged : ℕ → Request D → Step D
  restarted : ℕ → String → Step D

-- The file with its loggers.
pub record Shared (D : Type 0) : Type 0 where
  pub loggers : ℕ → AuditLogger
  pub log_file : List (AuditEntry D)

-- The loggers that know the end of the file, after another that does.
abbrev pub also : ℕ → (ℕ → Bool) → ℕ → Bool
also k current j = if j == k then true else current j

-- Only the logger that has just written.
abbrev pub only : ℕ → ℕ → Bool
only k j = j == k

module _ {D : Type 0} where
  -- The hash and the number of the last entry, or what is given where there is none.
  abbrev pub end_hash : String → List (AuditEntry D) → String
  end_hash h [] = h
  end_hash h (e ∷ es) = end_hash e.entry_hash es

  abbrev pub end_seq : ℕ → List (AuditEntry D) → ℕ
  end_seq n [] = n
  end_seq n (e ∷ es) = end_seq e.content.seq es

  abbrev pub calls : List (Step D) → ℕ
  calls [] = 0
  calls (logged k r ∷ ss) = suc (calls ss)
  calls (restarted k node_id ∷ ss) = calls ss

  -- The loggers that know the end of the file after the steps.
  abbrev pub current_after : List (Step D) → (ℕ → Bool) → ℕ → Bool
  current_after [] current = current
  current_after (logged k r ∷ ss) current = current_after ss (only k)
  current_after (restarted k node_id ∷ ss) current = current_after ss (also k current)

  -- No logger writes after another has, before its process restarts.
  abbrev pub InTurn : List (Step D) → (ℕ → Bool) → Type 0
  InTurn [] current = Unit {0}
  InTurn (logged k r ∷ ss) current = (current k ≡ true) × InTurn ss (only k)
  InTurn (restarted k node_id ∷ ss) current = InTurn ss (also k current)

  end_hash-snoc :
      (h : String) (es : List (AuditEntry D)) (e : AuditEntry D)
      → end_hash h (es ++ e ∷ []) ≡ e.entry_hash
  end_hash-snoc h [] e = refl
  end_hash-snoc h (f ∷ es) e = end_hash-snoc f.entry_hash es e

  end_seq-snoc :
      (n : ℕ) (es : List (AuditEntry D)) (e : AuditEntry D)
      → end_seq n (es ++ e ∷ []) ≡ e.content.seq
  end_seq-snoc n [] e = refl
  end_seq-snoc n (f ∷ es) e = end_seq-snoc f.content.seq es e

  length-snoc :
      (es : List (AuditEntry D)) (e : AuditEntry D) → length (es ++ e ∷ []) ≡ suc (length es)
  length-snoc [] e = refl
  length-snoc (f ∷ es) e = ap suc (length-snoc es e)

  last_entry-cons :
      (e : AuditEntry D) (es : List (AuditEntry D))
      → (x : AuditEntry D) × (last_entry (e ∷ es) ≡ some x)
  unfolding last_entry
  last_entry-cons e [] = (e, refl)
  last_entry-cons e (f ∷ es) = last_entry-cons f es

  last_entry-end :
      (h : String) (n : ℕ) (es : List (AuditEntry D))
      → (elim (last_entry es) [ none ↦ h | some e ↦ e.entry_hash ] ≡ end_hash h es)
        × (elim (last_entry es) [ none ↦ n | some e ↦ e.content.seq ] ≡ end_seq n es)
  unfolding last_entry
  last_entry-end h n [] = (refl, refl)
  last_entry-end h n (e ∷ []) = (refl, refl)
  last_entry-end h n (e ∷ f ∷ es) =
      let (x, q) = last_entry-cons f es in
      ground (arith, q, last_entry-end e.entry_hash e.content.seq (f ∷ es))

  restore_lem :
      (node_id : String) (es : List (AuditEntry D))
      → let l = restore node_id es in (l.last_hash ≡ end_hash "genesis" es) × (l.seq ≡ end_seq 0 es)
  unfolding restore
  restore_lem node_id es = ground (arith, last_entry-end "genesis" 0 es)

module _ {D : Type 0} (digest : Content D → String) where
  unfoldable pub shared_step : Step D → Shared D → Shared D
  unfolding log restore
  shared_step (logged k r) s =
      let (l, log_file, _) = log digest r (s.loggers k) s.log_file in
      record { loggers = λ j. if j == k then l else s.loggers j; log_file = log_file }
  shared_step (restarted k node_id) s = record s {
    loggers = λ j. if j == k then restore node_id s.log_file else s.loggers j;
  }

  unfoldable pub run : List (Step D) → Shared D → Shared D
  unfolding shared_step
  run [] s = s
  run (e ∷ ss) s = run ss (shared_step e s)

  -- The file verifies, its end is what the logger goes on from, and the numbers count the entries.
  pub record IsValid (l : AuditLogger) (log_file : List (AuditEntry D)) : Type 0 where
    pub verified : verify_from digest "genesis" log_file ≡ none
    pub linked : l.last_hash ≡ end_hash "genesis" log_file
    pub numbered : l.seq ≡ end_seq 0 log_file
    pub counted : l.seq ≡ length log_file

  verify_from-snoc :
      (h : String) (es : List (AuditEntry D)) (e : AuditEntry D)
      → verify_from digest h es ≡ none
      → e.entry_hash ≡ digest e.content
      → e.content.prev_hash ≡ end_hash h es
      → verify_from digest h (es ++ e ∷ []) ≡ none
  unfolding verify_from
  verify_from-snoc h [] e v a b = ground arith
  verify_from-snoc h (f ∷ es) e v a b = ground (arith, verify_from-snoc f.entry_hash es e)

  pub log-IsValid :
      (r : Request D) (l : AuditLogger) (es : List (AuditEntry D))
      → IsValid l es
      → IsValid (log digest r l es).0 (log digest r l es).1
  unfolding log entry_of
  log-IsValid r l es v =
      let e = entry_of digest r l in
      record {
        verified = verify_from-snoc "genesis" es e v.verified refl v.linked;
        linked = sym (end_hash-snoc "genesis" es e);
        numbered = sym (end_seq-snoc 0 es e);
        counted = omega (arith, length-snoc es e, v.counted);
      }

  -- The file verifies and counts its entries, and each of the loggers that are said to does know its end.
  pub record AllCurrent (current : ℕ → Bool) (s : Shared D) : Type 0 where
    pub verified : verify_from digest "genesis" s.log_file ≡ none
    pub counted : end_seq 0 s.log_file ≡ length s.log_file
    pub known : (j : ℕ) → current j ≡ true → IsValid (s.loggers j) s.log_file

  restore-IsValid :
      (node_id : String) (es : List (AuditEntry D))
      → verify_from digest "genesis" es ≡ none
      → end_seq 0 es ≡ length es
      → IsValid (restore node_id es) es
  restore-IsValid node_id es v c = ground (arith, restore_lem node_id es, v, c)

  pub start-IsValid : (node_id : String) → IsValid (restore {D = D} node_id []) []
  unfolding verify_from
  start-IsValid node_id = restore-IsValid node_id [] refl refl

  logged-AllCurrent :
      (k : ℕ) (r : Request D) (current : ℕ → Bool) (s : Shared D)
      → current k ≡ true
      → AllCurrent current s
      → AllCurrent (only k) (shared_step (logged k r) s)
  unfolding shared_step
  logged-AllCurrent k r current s turn a =
      let v = log-IsValid r (s.loggers k) s.log_file (a.known k turn) in
      record {
        verified = v.verified;
        counted = sym v.numbered ∙ v.counted;
        known = λ j same. rw same v;
      }

  also_known :
      (es : List (AuditEntry D)) (l m : AuditLogger) (new old : Bool)
      → (if new then true else old) ≡ true
      → IsValid l es
      → (old ≡ true → IsValid m es)
      → IsValid (if new then l else m) es
  also_known es l m true old is v w = v
  also_known es l m false old is v w = w is

  restarted-AllCurrent :
      (k : ℕ) (node_id : String) (current : ℕ → Bool) (s : Shared D)
      → AllCurrent current s
      → AllCurrent (also k current) (shared_step (restarted k node_id) s)
  unfolding shared_step
  restarted-AllCurrent k node_id current s a =
      let v = restore-IsValid node_id s.log_file a.verified a.counted in
      record {
        verified = a.verified;
        counted = a.counted;
        known = λ j is.
            also_known s.log_file (restore node_id s.log_file) (s.loggers j) (j == k) (current j) is
              v (a.known j);
      }

  length-step :
      (k : ℕ) (r : Request D) (s : Shared D)
      → length (shared_step (logged k r) s).log_file ≡ suc (length s.log_file)
  unfolding shared_step log
  length-step k r s = length-snoc s.log_file (entry_of digest r (s.loggers k))

  run-AllCurrent :
      (ss : List (Step D)) (current : ℕ → Bool) (s : Shared D)
      → InTurn ss current
      → AllCurrent current s
      → AllCurrent (current_after ss current) (run ss s)
        × (length (run ss s).log_file ≡ length s.log_file + calls ss)
  unfolding run
  run-AllCurrent [] current s turns a = (a, omega arith)
  run-AllCurrent (logged k r ∷ ss) current s (turn, turns) a =
      let (b, n) =
        run-AllCurrent ss (only k) (shared_step (logged k r) s) turns
          (logged-AllCurrent k r current s turn a) in
      (b, omega (arith, n, length-step k r s))
  run-AllCurrent (restarted k node_id ∷ ss) current s turns a =
      run-AllCurrent ss (also k current) (shared_step (restarted k node_id) s) turns
        (restarted-AllCurrent k node_id current s a)

  -- A file that starts empty, with any loggers that have it open, verifies after any calls and restarts in
  -- which no logger writes after another one has, unless its process restarted in between, whatever the
  -- digest. Each logger that has written or started since the last entry reports the number of the calls
  -- as the number of entries.
  pub run-verifies :
      (name : ℕ → String) (ss : List (Step D))
      → InTurn ss (λ k. true)
      → let s = run ss (record { loggers = λ k. restore {D = D} (name k) []; log_file = [] }) in
        (verify_from digest "genesis" s.log_file ≡ none)
        × ((k : ℕ)
            → current_after ss (λ j. true) k ≡ true
            → verify_integrity digest (s.loggers k) s.log_file ≡ valid (calls ss))
  unfolding verify_integrity
  run-verifies name ss turns =
      let start : Shared D = record { loggers = λ k. restore {D = D} (name k) []; log_file = [] } in
      let (a, n) =
        run-AllCurrent ss (λ k. true) start turns
          (record {
            verified = (start-IsValid (name 0)).verified;
            counted = refl;
            known = λ k _. start-IsValid (name k);
          }) in
      (
        a.verified,
        λ k is.
            rw (a.verified, verify_integrity) (ap valid (omega (arith, n, (a.known k is).counted))),
      )

  -- Two loggers that both had the empty file open write one entry each, as two nodes with one file do: the
  -- file fails its verification at number 1, unless the digest gives "genesis".
  pub log_beside :
      (name other : String) (r q : Request D)
      → ((c : Content D) → digest c ≢ "genesis")
      → let (l, file, _) = log digest r (restore {D = D} name []) [] in
        let (m, file', _) = log digest q (restore {D = D} other []) file in
        verify_integrity digest l file' ≡ tampered_at 1
  unfolding log entry_of verify_integrity verify_from restore last_entry
  log_beside name other r q free =
      let first = entry_of digest r (restore {D = D} name []) in
      let linked : first.entry_hash ≢ "genesis" = λ e. free first.content e in
      ground (arith, λ (e : "genesis" ≡ first.entry_hash). linked (sym e))
