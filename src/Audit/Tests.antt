-- ===== src/Audit/Tests.antt =====
-- Runs of the audit log of security/audit_logger.py, with a digest of two values.
use distributed_sync_system.Base.{
  arith, false, ℕ, true, none, drop, ◌≢◌, if◌then◌else◌, ◌==◌, ◌≡◌, refl, List, [], ◌∷◌, String,
  ite, str_dec, take,
}
use text.Mathlib.TextEquality.{eq_iff}
use distributed_sync_system.Audit.Log.{
  Content, AuditEntry, valid, tampered_at, last_entry, restore, Request, entry_of, log, verify_from,
  verify_integrity,
}
use distributed_sync_system.Audit.Chain.{
  Step, Shared, current_after, logged, restarted, shared_step, run, run-verifies, log_beside,
}
use distributed_sync_system.Audit.Tampering.{verify_integrity_unique, verify_integrity_truncated}

program : Unit {0}
unfolding str_dec last_entry restore entry_of log verify_from verify_integrity run shared_step
program = tt

abbrev digest : Content String → String
unfolding str_dec
digest c = ite (str_dec c.details "x") "hx" "hy"

never : false ≡ true → ⊥
never e = cc e

hx_not_genesis : ◌≢◌ {A = String} "hx" "genesis"
hx_not_genesis e = never ((eq_iff "hx" "genesis").1 e)

hy_not_genesis : ◌≢◌ {A = String} "hy" "genesis"
hy_not_genesis e = never ((eq_iff "hy" "genesis").1 e)

not_genesis : (c : Content String) → digest c ≢ "genesis"
unfolding str_dec
not_genesis c e = ground (
  arith,
  e,
  λ (p : ◌≡◌ {A = String} "hx" "genesis"). hx_not_genesis p,
  λ (p : ◌≡◌ {A = String} "hy" "genesis"). hy_not_genesis p,
)

abbrev request : String → Request String
request details = record {
  timestamp = 1;
  client_id = "c";
  action = "acquire";
  resource = "l";
  status = "success";
  details = details;
}

-- The first logger writes, then a second one starts and writes, then the first restarts and writes.
abbrev steps : List (Step String)
steps =
    logged 0 (request "x")
    ∷ restarted 1 "b"
    ∷ logged 1 (request "y")
    ∷ restarted 0 "a"
    ∷ logged 0 (request "x")
    ∷ []

abbrev names : ℕ → String
names k = if k == 0 then "a" else "b"

abbrev shared : Shared String
unfolding program
shared =
    run digest steps (record { loggers = λ k. restore {D = String} (names k) []; log_file = [] })

run-verifies_example :
    (verify_from digest "genesis" shared.log_file ≡ none)
    × ((k : ℕ)
        → current_after steps (λ j. true) k ≡ true
        → verify_integrity digest (shared.loggers k) shared.log_file ≡ valid 3)
unfolding program
run-verifies_example = run-verifies digest names steps (refl, (refl, (refl, tt)))

log_beside_example :
    let (l, file, _) = log digest (request "x") (restore {D = String} "a" []) [] in
    let (m, file', _) = log digest (request "y") (restore {D = String} "b" []) file in
    verify_integrity digest l file' ≡ tampered_at 1
log_beside_example = log_beside digest "a" "b" (request "x") (request "y") not_genesis

abbrev changed : List (AuditEntry String)
unfolding program
changed =
    (record (entry_of digest (request "x") (restore {D = String} "a" [])) { entry_hash = "z" })
    ∷ drop 1 shared.log_file

tampering_found : verify_integrity digest (shared.loggers 0) changed ≡ tampered_at 1
unfolding program
tampering_found = refl

verify_integrity_unique_example : shared.log_file ≡ shared.log_file
unfolding program
verify_integrity_unique_example =
    verify_integrity_unique digest (shared.loggers 0) (shared.loggers 1) shared.log_file
      shared.log_file 3 2 refl refl refl refl ((λ p. refl), ((λ p. refl), ((λ p. refl), tt)))

still_verifies : verify_integrity digest (shared.loggers 0) (take 1 shared.log_file) ≡ valid 3
unfolding program
still_verifies = verify_integrity_truncated digest (shared.loggers 0) shared.log_file 1 3 refl
