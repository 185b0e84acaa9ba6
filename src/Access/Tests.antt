-- ===== src/Access/Tests.antt =====
-- Requests to the middleware of security/tls_manager.py.
use distributed_sync_system.Base.{
  ◌≡◌, refl, true, false, none, some, lookup, lookup_or, contains, str_dec,
}
use distributed_sync_system.Access.Roles.{
  bypassed, unauthorized, forbidden, allowed, is_open, get_role, has_permission, required,
  check_permission, auth_middleware,
}
use distributed_sync_system.Access.Guard.{auth_middleware-Permits}

program : Unit {0}
unfolding str_dec lookup lookup_or contains is_open get_role has_permission required
    check_permission auth_middleware
program = tt

reader_reads :
    auth_middleware "GET" "/cache/k" (some "reader-key-789") ≡ allowed "reader" "reader-key-789"
unfolding program
reader_reads = refl

one_allowed :
    (is_open "/cache/k" ≡ false)
    × (get_role "reader-key-789" ≡ some "reader")
    × (has_permission "reader" "cache:read" ≡ true)
unfolding program
one_allowed =
    auth_middleware-Permits "GET" "/cache/k" "reader-key-789" "reader" "reader-key-789" reader_reads

refused :
    (auth_middleware "PUT" "/cache/k" (some "reader-key-789") ≡ forbidden "reader" "cache:write")
    × (auth_middleware "GET" "/cache/k" none ≡ unauthorized)
    × (auth_middleware "POST" "/raft/vote" none ≡ bypassed)
unfolding program
refused = (refl, refl, refl)
