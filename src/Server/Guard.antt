-- ===== src/Server/Guard.antt =====
-- What a request to the server of src/main.py may change.
use Prim.Native.Char.{Char, code}
use Prim.Native.String.{◌++◌}
use Prim.Native.String.append
use text.Mathlib.Text.{starts_with}
use text.Mathlib.TextLemmas.{append_assoc, append_cancel_left, head-eq_of_cons-eq}
use text.Mathlib.TextEquality.{starts_with_iff}
use text.Mathlib.TextPositions.{starts_with-append}
use distributed_sync_system.Base.{
  lookup, ℕ, ◌≡◌, ◌≢◌, ◌⊎◌, inl, inr, refl, sym, ap, ◌∙◌, subst, true, false, Option, none, some,
  String, returned, arith, Bool-cases, str_dec,
}
use distributed_sync_system.Access.Guard.{Permits, auth_middleware-Permits}
use distributed_sync_system.Access.Roles.{
  Verdict, bypassed, unauthorized, forbidden, allowed, is_open, get_role, has_permission, required,
  check_permission, auth_middleware, endpoint_permissions,
}
use distributed_sync_system.Audit.Log.{Content}
use distributed_sync_system.Queue.Message.{Codec}
use distributed_sync_system.Queue.Store.{Redis}
use distributed_sync_system.Server.Routes.{
  Route, health, raft_status, lock_status, queue_status, cache_status, get_metrics, audit_verify,
  raft_vote, raft_append, acquire_route, release_route, queue_produce, queue_consume, queue_ack,
  queue_store, cache_read, cache_write, cache_invalidate, cache_peek, cache_invalidate_rpc,
  audit_logs, method_of, path_of,
}
use distributed_sync_system.Server.State.{Details, App, Given, refused}
use distributed_sync_system.Server.Serve.{serve}

module _ {J V : Type 0} where
  -- The permission that a route is meant to need: `none` for the ones between nodes and the health check.
  unfoldable pub permission_of : Route J V → Option String
  permission_of health = none
  permission_of raft_status = none
  permission_of (raft_vote _) = none
  permission_of (raft_append _) = none
  permission_of (queue_store _) = none
  permission_of (cache_peek _) = none
  permission_of (cache_invalidate_rpc _) = none
  permission_of (acquire_route _) = some "lock:write"
  permission_of (release_route _) = some "lock:write"
  permission_of lock_status = some "lock:read"
  permission_of (queue_produce _) = some "queue:write"
  permission_of (queue_consume _) = some "queue:read"
  permission_of (queue_ack _) = some "queue:write"
  permission_of queue_status = some "queue:read"
  permission_of cache_status = some "cache:read"
  permission_of (cache_read _) = some "cache:read"
  permission_of (cache_write _ _) = some "cache:write"
  permission_of (cache_invalidate _) = some "cache:write"
  permission_of get_metrics = some "metrics:read"
  permission_of (audit_logs _) = some "audit:read"
  permission_of audit_verify = some "audit:read"

-- Texts that differ in a character after the same beginning.
apart :
    (s : String) (c d : Char) (t u : String)
    → code c ≢ code d
    → starts_with (s ++ (String.◌∷◌ c t)) (s ++ (String.◌∷◌ d u)) ≡ false
apart s c d t u differ =
    elim (Bool-cases (starts_with (s ++ (String.◌∷◌ c t)) (s ++ (String.◌∷◌ d u)))) [
      | inr f ↦ f
      | inl e ↦
          let (v, whole) = (starts_with_iff (s ++ (String.◌∷◌ c t)) (s ++ (String.◌∷◌ d u))).0 e in
          let tails =
            append_cancel_left s ((String.◌∷◌ d u) ++ v) (String.◌∷◌ c t)
              (sym (append_assoc s (String.◌∷◌ d u) v) ∙ whole) in
          absurd (differ (sym (ap code (head-eq_of_cons-eq (sym (append.cons d u v) ∙ tails)))))
    ]

-- A path of the cache begins with none that differs from it in its second character.
not_cache :
    (d : Char) (u key : String)
    → code "c" ≢ code d
    → starts_with ("/cache/" ++ key) ("/" ++ (String.◌∷◌ d u)) ≡ false
not_cache d u key differ =
    let form : "/cache/" ++ key ≡ "/" ++ (String.◌∷◌ "c" ("ache/" ++ key)) =
      append_assoc "/" "cache/" key ∙ ap (λ x. "/" ++ x) (append.cons "c" "ache/" key) in
    subst (λ x. starts_with x ("/" ++ (String.◌∷◌ d u)) ≡ false) (sym form)
      (apart "/" "c" d ("ache/" ++ key) u differ)

is_cache : (key : String) → starts_with ("/cache/" ++ key) "/cache" ≡ true
is_cache key =
    subst (λ x. starts_with x "/cache" ≡ true) (sym (append_assoc "/cache" "/" key))
      (starts_with-append "/cache" ("/" ++ key))

required_get :
    (key : String) → required "GET" ("/cache/" ++ key) endpoint_permissions ≡ some "cache:read"
unfolding required str_dec
required_get key =
    rw
      (
        not_cache "l" "ock/status" key (λ (e : code "c" ≡ code "l"). omega arith),
        not_cache "q" "ueue/status" key (λ (e : code "c" ≡ code "q"). omega arith),
        is_cache key,
        required,
      )
      refl

required_put :
    (key : String) → required "PUT" ("/cache/" ++ key) endpoint_permissions ≡ some "cache:write"
unfolding required str_dec
required_put key = rw (is_cache key, required) refl

required_delete :
    (key : String) → required "DELETE" ("/cache/" ++ key) endpoint_permissions ≡ some "cache:write"
unfolding required str_dec
required_delete key = rw (is_cache key, required) refl

module _ {J V : Type 0} where
  required_lem :
      (r : Route J V) (p : String)
      → permission_of r ≡ some p
      → required (method_of r) (path_of r) endpoint_permissions ≡ some p
  unfolding permission_of method_of path_of required str_dec
  required_lem (cache_read key) p e = required_get key ∙ e
  required_lem (cache_write key v) p e = required_put key ∙ e
  required_lem (cache_invalidate key) p e = required_delete key ∙ e
  required_lem (acquire_route _) p e = e
  required_lem (release_route _) p e = e
  required_lem lock_status p e = e
  required_lem (queue_produce _) p e = e
  required_lem (queue_consume _) p e = e
  required_lem (queue_ack _) p e = e
  required_lem queue_status p e = e
  required_lem cache_status p e = e
  required_lem get_metrics p e = e
  required_lem (audit_logs _) p e = e
  required_lem audit_verify p e = e
  required_lem health p e = absurd (cc e)
  required_lem raft_status p e = absurd (cc e)
  required_lem (raft_vote _) p e = absurd (cc e)
  required_lem (raft_append _) p e = absurd (cc e)
  required_lem (queue_store _) p e = absurd (cc e)
  required_lem (cache_peek _) p e = absurd (cc e)
  required_lem (cache_invalidate_rpc _) p e = absurd (cc e)

no_key :
    (method path : String) → is_open path ≡ false → auth_middleware method path none ≡ unauthorized
unfolding auth_middleware get_role lookup str_dec
no_key method path plain = rw (plain, auth_middleware) refl

not_bypassed :
    (method path : String) (header : Option String)
    → is_open path ≡ false
    → auth_middleware method path header ≢ bypassed
unfolding auth_middleware check_permission
not_bypassed method path header plain e = ground (arith, plain, e)

pub Verdict-cases :
    (v : Verdict)
    → (v ≡ bypassed)
      ⊎ ((v ≡ unauthorized)
          ⊎ (((a : String) × (b : String) × (v ≡ forbidden a b))
              ⊎ ((a : String) × (b : String) × (v ≡ allowed a b))))
Verdict-cases bypassed = inl refl
Verdict-cases unauthorized = inr (inl refl)
Verdict-cases (forbidden a b) = inr (inr (inl (a, b, refl)))
Verdict-cases (allowed a b) = inr (inr (inr (a, b, refl)))

module _ {J V : Type 0} (codec : Codec J) (db : Redis) (digest : Content (Details J) → String)
    (position : String → ℕ) where
  -- A request to a route that needs a permission, whose path is not one of the open ones, changes
  -- nothing and is refused, or its key is that of a role with the permission of the route.
  pub serve-Permits :
      (header : Option String) (r : Route J V) (p : String) (given : Given db.Store J V)
      (s : App db.Store J V)
      → permission_of r ≡ some p
      → is_open (path_of r) ≡ false
      → ((status : ℕ) × (serve codec db digest position header r given s
            ≡ (s, returned (refused status))))
        ⊎ ((role : String) × (key : String) × (header ≡ some key)
            × (get_role key ≡ some role)
            × (has_permission role p ≡ true))
  unfolding serve
  serve-Permits none r p given s needs plain =
      inl (401, rw (no_key (method_of r) (path_of r) plain, serve) refl)
  serve-Permits (some key) r p given s needs plain =
      elim (Verdict-cases (auth_middleware (method_of r) (path_of r) (some key))) [
        | inl e ↦ absurd (not_bypassed (method_of r) (path_of r) (some key) plain e)
        | inr (inl e) ↦ inl (401, rw (e, serve) refl)
        | inr (inr (inl (a, b, e))) ↦ inl (403, rw (e, serve) refl)
        | inr (inr (inr (role, client, e))) ↦
            let (o, named, permits) =
              auth_middleware-Permits (method_of r) (path_of r) key role client e in
            inr (role, key, refl, named, subst (Permits role) (required_lem r p needs) permits)
      ]
