-- ===== src/Server/Tests.antt =====
-- Requests to the server of src/main.py.
use distributed_sync_system.Base.{
  ℕ, ◌≡◌, ◌⊎◌, refl, true, some, none, [], ◌∷◌, String, returned, str_dec,
}
use distributed_sync_system.Access.Roles.{
  bypassed, is_open, get_role, has_permission, auth_middleware,
}
use distributed_sync_system.Audit.Chain.{IsValid, start-IsValid}
use distributed_sync_system.Audit.Log.{Content, restore, last_entry}
use distributed_sync_system.Cache.Node.{init as cache_init}
use distributed_sync_system.Lock.State.{init as lock_init}
use distributed_sync_system.Metrics.{Registry}
use distributed_sync_system.Queue.Tests.Memory.{Table, memory}
use distributed_sync_system.Queue.Tests.Words.{words}
use distributed_sync_system.Raft.State.{init as raft_init}
use distributed_sync_system.Server.Routes.{Route, cache_write, path_of, method_of}
use distributed_sync_system.Server.State.{Details, App, Given, refused}
use distributed_sync_system.Server.Serve.{serve}
use distributed_sync_system.Server.Guard.{permission_of, serve-Permits}
use distributed_sync_system.Server.Trail.{Before, Adds, entry_for, serve-IsValid}

abbrev fresh : Registry
fresh = record { counters = []; gauges = []; histograms = [] }

abbrev digest : Content (Details ℕ) → String
digest c = c.action

abbrev node : App Table ℕ ℕ
unfolding raft_init lock_init cache_init restore last_entry
node = record {
  raft = raft_init "node1" [] 0 fresh;
  locks = lock_init fresh;
  queue = record {
    node_id = "node1";
    node_port = 8001;
    peers = [];
    ring = record { virtual_nodes = 0; ring = []; map = [] };
    all_nodes = "node1" ∷ [];
    redis = record { hashes = []; lists = []; sets = [] };
    metrics = fresh;
  };
  cache = cache_init 2 fresh;
  audit = restore {D = Details ℕ} "node1" [];
  log_file = [];
}

abbrev given : Given Table ℕ ℕ
given = record {
  now = 5;
  later = 6;
  fresh_id = "m1";
  lock_timeout = 30;
  forwarded = none;
  peeked = [];
  meanwhile = λ s. s;
}

abbrev write_x : Route ℕ ℕ
write_x = cache_write "x" (some 7)

-- A reader may not write.
serve-Permits_example :
    ((status : ℕ) × (serve words memory digest (λ k. 0) (some "reader-key-789") write_x given node
        ≡ (node, returned (refused status))))
    ⊎ ((role : String) × (key : String) × (some "reader-key-789" ≡ some key)
        × (get_role key ≡ some role)
        × (has_permission role "cache:write" ≡ true))
unfolding permission_of path_of is_open str_dec
serve-Permits_example =
    serve-Permits words memory digest (λ k. 0) (some "reader-key-789") write_x "cache:write" given
      node refl refl

serve-IsValid_example :
    let (s', ended) =
      serve words memory digest
        (λ k. 0)
        (some "dev-secret-key-change-in-prod")
        write_x
        given
        node in
    let verdict =
      auth_middleware
        (method_of write_x)
        (path_of write_x)
        (some "dev-secret-key-change-in-prod") in
    ((b : App Table ℕ ℕ) × Before words memory digest (λ k. 0) given node b
      × Adds words memory digest (λ k. 0) (entry_for verdict write_x ended 6) b s')
    × IsValid digest s'.audit s'.log_file
unfolding restore last_entry node
serve-IsValid_example =
    serve-IsValid words memory digest (λ k. 0) (some "dev-secret-key-change-in-prod") write_x given
      node (λ t v. v) (start-IsValid digest "node1")

abbrev odd_write : Route ℕ ℕ
odd_write = cache_write "peek/x" (some 7)

-- A key that was decoded to a path between nodes needs no API key.
open_key : auth_middleware (method_of odd_write) (path_of odd_write) none ≡ bypassed
unfolding auth_middleware is_open path_of method_of str_dec
open_key = refl
