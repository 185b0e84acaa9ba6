-- ===== src/Audit/Log.antt =====
-- The audit logger of security/audit_logger.py. A logger keeps the number and the hash of the last entry
-- that it knows of. The file is apart from it, since several loggers may append to one: it is the list
-- of the entries that its lines hold; one that does not exist yet has none. The SHA-256 of an entry's content in JSON is a function of the content, and a parameter. The
-- details are of any type.
use distributed_sync_system.Base.{
  ℕ, zero, suc, Option, none, some, List, [], ◌∷◌, ◌++◌, String, ite, str_dec, length, drop, ◌-◌,
}

-- What `compute_hash` hashes.
pub record Content (D : Type 0) : Type 0 where
  pub seq : ℕ
  pub timestamp : ℕ
  pub node_id : String
  pub client_id : String
  pub action : String
  pub resource : String
  pub status : String
  pub details : D
  pub prev_hash : String

pub record AuditEntry (D : Type 0) : Type 0 where
  pub content : Content D
  pub entry_hash : String

pub record AuditLogger : Type 0 where
  pub node_id : String
  pub seq : ℕ
  pub last_hash : String

pub data Integrity : Type 0 where
  valid : (entries : ℕ) → Integrity
  tampered_at : ℕ → Integrity

module _ {D : Type 0} where
  unfoldable pub last_entry : List (AuditEntry D) → Option (AuditEntry D)
  last_entry [] = none
  last_entry (e ∷ []) = some e
  last_entry (e ∷ f ∷ es) = last_entry (f ∷ es)

  -- `__init__` with `_restore_state`, on the file as it is.
  unfoldable pub restore : String → List (AuditEntry D) → AuditLogger
  restore node_id log_file = elim (last_entry log_file) [
    | none ↦ record { node_id = node_id; seq = 0; last_hash = "genesis" }
    | some e ↦ record { node_id = node_id; seq = e.content.seq; last_hash = e.entry_hash }
  ]

  -- `get_recent`, and so `lines[-n:]`, which is all of them for 0.
  unfoldable pub get_recent : ℕ → List (AuditEntry D) → List (AuditEntry D)
  get_recent zero log_file = log_file
  get_recent (suc n) log_file = drop (length log_file - suc n) log_file

-- A call of `log`: who did what to what, with which result and details, and when.
pub record Request (D : Type 0) : Type 0 where
  pub timestamp : ℕ
  pub client_id : String
  pub action : String
  pub resource : String
  pub status : String
  pub details : D

module _ {D : Type 0} (digest : Content D → String) where
  unfoldable pub entry_of : Request D → AuditLogger → AuditEntry D
  entry_of r l =
      let c : Content D = record {
        seq = suc l.seq;
        timestamp = r.timestamp;
        node_id = l.node_id;
        client_id = r.client_id;
        action = r.action;
        resource = r.resource;
        status = r.status;
        details = r.details;
        prev_hash = l.last_hash;
      } in
      record { content = c; entry_hash = digest c }

  -- `log`, on the file as other loggers have left it.
  unfoldable pub log :
      Request D
      → AuditLogger
      → List (AuditEntry D)
      → AuditLogger × List (AuditEntry D) × AuditEntry D
  unfolding entry_of
  log r l log_file =
      let e = entry_of r l in
      (record l { seq = suc l.seq; last_hash = e.entry_hash }, log_file ++ e ∷ [], e)

  -- The loop of `verify_integrity`, from the hash of the entry before; `none` is its end.
  unfoldable pub verify_from : String → List (AuditEntry D) → Option ℕ
  verify_from prev_hash [] = none
  verify_from prev_hash (e ∷ es) =
      let rest = verify_from e.entry_hash es in
      ite (str_dec e.entry_hash (digest e.content))
        (ite (str_dec e.content.prev_hash prev_hash) rest (some e.content.seq)) (some e.content.seq)

  unfoldable pub verify_integrity : AuditLogger → List (AuditEntry D) → Integrity
  unfolding verify_from
  verify_integrity l log_file = elim (verify_from "genesis" log_file) [
    | none ↦ valid l.seq
    | some s ↦ tampered_at s
  ]
