-- ===== src/Config/Tests.antt =====
-- Tests of src/utils/config.py.
use text.Mathlib.Text.{◌==◌}
use distributed_sync_system.Base.{
  ◌≡◌, refl, true, false, Option, none, some, [], ◌∷◌, String, All, dec_lt, if◌then◌else◌,
}
use distributed_sync_system.Config.Words.{is_empty, strip, parse_peers}
use distributed_sync_system.Config.Numbers.{parse_int, str}
use distributed_sync_system.Config.Settings.{
  same_lower, Environment, Config, load, get_redis_url, node_url, all_nodes,
}
use distributed_sync_system.Config.Peers.{no_comma, starts_plain, ends_plain, IsPeer, join_commas}
use distributed_sync_system.Config.Loaded.{load-all_nodes}

two_peers :
    parse_peers " http://node2:8002, ,http://node3:8003\t"
    ≡ "http://node2:8002" ∷ "http://node3:8003" ∷ []
unfolding parse_peers
two_peers = refl

port : parse_int " 8001\n" ≡ some 8001
unfolding parse_int is_empty strip
port = refl

no_port : parse_int "80x1" ≡ none
unfolding parse_int is_empty strip
no_port = refl

port_text : str 8001 ≡ "8001"
unfolding str dec_lt
port_text = refl

-- The environment of the first node of the cluster of three.
abbrev first_node : Environment
first_node name =
    if name == "NODE_ID"
    then some "node1"
    else if name == "NODE_PORT"
    then some (str 8001)
    else if name == "PEER_NODES"
    then some (join_commas ("http://node2:8002" ∷ "http://node3:8003" ∷ []))
    else none

-- A text for a floating-point number.
abbrev as_text : String → Option String
as_text s = some s

abbrev first_config : Config String
first_config = record {
  node_id = "node1";
  node_host = "0.0.0.0";
  node_port = 8001;
  peer_nodes = "http://node2:8002" ∷ "http://node3:8003" ∷ [];
  redis_host = "localhost";
  redis_port = 6379;
  redis_db = 0;
  redis_password = "";
  election_timeout_min = "1.5";
  election_timeout_max = "3.0";
  heartbeat_interval = "0.5";
  lock_timeout = "30.0";
  deadlock_check_interval = "5.0";
  queue_max_size = 10000;
  message_retry_interval = "5.0";
  message_max_retries = 3;
  virtual_nodes = 150;
  cache_size = 1000;
  tls_enabled = false;
  tls_cert_file = "security/certs/node.crt";
  tls_key_file = "security/certs/node.key";
  audit_log_file = "logs/audit.log";
  api_key = "dev-secret-key-change-in-prod";
  log_level = "INFO";
}

load_first : load as_text first_node ≡ some first_config
unfolding load parse_int parse_peers str join_commas is_empty strip dec_lt
load_first = refl

redis_url : get_redis_url first_config ≡ "redis://localhost:6379/0"
unfolding get_redis_url str dec_lt
redis_url = refl

-- `TLS_ENABLED=True` is true.
big_true : same_lower "True" "true" ≡ true
unfolding same_lower
big_true = refl

-- `NODE_PORT=http` is a ValueError when the module is loaded.
no_load : load as_text (λ name. if name == "NODE_PORT" then some "http" else none) ≡ none
unfolding load parse_int is_empty strip
no_load = refl

peers : All IsPeer ("http://node2:8002" ∷ "http://node3:8003" ∷ [])
unfolding no_comma starts_plain ends_plain
peers = (
  record { whole = refl; first = refl; last = refl },
  (record { whole = refl; first = refl; last = refl }, tt),
)

load-all_nodes_example :
    (first_config.node_port ≡ 8001)
    × (all_nodes first_config
        ≡ node_url first_config ∷ "http://node2:8002" ∷ "http://node3:8003" ∷ [])
load-all_nodes_example =
    load-all_nodes as_text first_node first_config 8001 "http://node2:8002"
      ("http://node3:8003" ∷ []) peers refl refl load_first
