-- ===== src/Access/Guard.antt =====
-- Which requests the middleware of security/tls_manager.py lets through.

use distributed_sync_system.Base.{
  ◌≡◌, ap, subst, ◌∙◌, inl, inr, true, false, Option, none, some, String, arith, Option-cases,
  Bool-cases,
}
use distributed_sync_system.Access.Roles.{
  allowed, is_open, get_role, has_permission, required, check_permission, auth_middleware,
  endpoint_permissions,
}

-- The role has the permission that is asked for, if there is one.
abbrev pub Permits : String → Option String → Type 0
Permits role none = Unit {0}
Permits role (some permission) = has_permission role permission ≡ true

check_permission-Permits :
    (k role role' client : String) (p : Option String)
    → check_permission k role p ≡ allowed role' client
    → (role ≡ role') × Permits role p
unfolding check_permission
check_permission-Permits k role role' client none h = (ground arith, tt)
check_permission-Permits k role role' client (some p) h = (ground arith, ground arith)

-- A request with a key that reaches its handler under a role is for a path that is not open, its key is
-- that of the role, and the role has the permission of the first endpoint that the request matches.
pub auth_middleware-Permits :
    (method path key role client : String)
    → auth_middleware method path (some key) ≡ allowed role client
    → (is_open path ≡ false)
      × (get_role key ≡ some role)
      × Permits role (required method path endpoint_permissions)
unfolding auth_middleware
auth_middleware-Permits method path key role client h = elim (Bool-cases (is_open path)) [
  | inl o ↦ absurd (ground arith)
  | inr o ↦ elim (Option-cases (get_role key)) [
    | inl n ↦ absurd (ground arith)
    | inr (r, n) ↦
        let p = required method path endpoint_permissions in
        let q : check_permission key r p ≡ allowed role client = ground arith in
        let (e, permits) = check_permission-Permits key r role client p q in
        (o, n ∙ ap some e, subst (λ x. Permits x p) e permits)
  ]
]
