-- ===== src/Access/Roles.antt =====
-- The tables of security/tls_manager.py and `auth_middleware`, up to the call of the handler. The keys
-- of the table are ASCII, so that the first 16 characters of one are its first 16 bytes.
use Prim.Native.String.{slice}
use text.Mathlib.Text.{starts_with}
use distributed_sync_system.Base.{
  Bool, true, false, ◌||◌, ◌&&◌, Option, none, some, List, [], ◌∷◌, String, Dict, lookup, lookup_or,
  contains, ite, str_dec, if◌then◌else◌,
}

abbrev pub roles : Dict (List String)
roles =
    (
      "admin",
      "lock:read" ∷ "lock:write" ∷ "queue:read" ∷ "queue:write" ∷ "cache:read" ∷ "cache:write"
          ∷ "metrics:read" ∷ "audit:read" ∷ [],
    )
    ∷ ("producer", "queue:write" ∷ [])
    ∷ ("consumer", "queue:read" ∷ "queue:write" ∷ [])
    ∷ ("reader", "cache:read" ∷ "lock:read" ∷ "metrics:read" ∷ [])
    ∷ []

abbrev pub api_keys : Dict String
api_keys =
    ("dev-secret-key-change-in-prod", "admin")
    ∷ ("producer-key-123", "producer")
    ∷ ("consumer-key-456", "consumer")
    ∷ ("reader-key-789", "reader")
    ∷ []

pub record Endpoint : Type 0 where
  pub method : String
  pub path : String
  pub permission : String

abbrev pub endpoint : String → String → String → Endpoint
endpoint method path permission = record { method = method; path = path; permission = permission }

abbrev pub endpoint_permissions : List Endpoint
endpoint_permissions =
    endpoint "POST" "/lock/acquire" "lock:write"
    ∷ endpoint "POST" "/lock/release" "lock:write"
    ∷ endpoint "GET" "/lock/status" "lock:read"
    ∷ endpoint "POST" "/queue/produce" "queue:write"
    ∷ endpoint "POST" "/queue/consume" "queue:read"
    ∷ endpoint "POST" "/queue/ack" "queue:write"
    ∷ endpoint "GET" "/queue/status" "queue:read"
    ∷ endpoint "GET" "/cache" "cache:read"
    ∷ endpoint "PUT" "/cache" "cache:write"
    ∷ endpoint "DELETE" "/cache" "cache:write"
    ∷ endpoint "GET" "/metrics" "metrics:read"
    ∷ endpoint "GET" "/audit" "audit:read"
    ∷ []

unfoldable pub get_role : String → Option String
get_role api_key = lookup api_key api_keys

unfoldable pub has_permission : String → String → Bool
has_permission role permission = contains permission (lookup_or role [] roles)

abbrev pub is : String → String → Bool
is a b = ite (str_dec a b) true false

-- The paths that need no key.
unfoldable pub is_open : String → Bool
is_open path =
    starts_with path "/raft/"
    || starts_with path "/cache/peek/"
    || starts_with path "/cache/invalidate/"
    || is path "/queue/store"
    || is path "/health"

-- The permission of the first endpoint that matches: the loop ends there.
unfoldable pub required : String → String → List Endpoint → Option String
required method path [] = none
required method path (e ∷ es) =
    let rest = required method path es in
    if is method e.method && starts_with path e.path then some e.permission else rest

-- What becomes of a request: it goes to its handler as it is, or with the role and the client of its
-- key, or ends with one of the two exceptions.
pub data Verdict : Type 0 where
  bypassed unauthorized : Verdict
  forbidden allowed : String → String → Verdict

unfoldable pub check_permission : String → String → Option String → Verdict
check_permission api_key role none = allowed role (slice api_key 0 16)
check_permission api_key role (some permission) =
    if has_permission role permission
    then allowed role (slice api_key 0 16)
    else forbidden role permission

-- `header` is X-API-Key. No role of the table is empty, so that `not role` means that there is none.
unfoldable pub auth_middleware : String → String → Option String → Verdict
unfolding check_permission
auth_middleware method path header =
    let api_key : String = elim header [ none ↦ "" | some k ↦ k ] in
    if is_open path then bypassed else elim (get_role api_key) [
      | none ↦ unauthorized
      | some role ↦ check_permission api_key role (required method path endpoint_permissions)
    ]
