-- ===== src/Config/Settings.antt =====
-- The class Config of src/utils/config.py: the settings that are read when the module is loaded.
use Prim.Native.Char.{code}
use Prim.Native.String.{◌++◌}
use distributed_sync_system.Base.{
  ℕ, ◌+◌, leb, ◌==◌, Bool, true, false, ◌&&◌, Option, none, some, List, ◌∷◌, String, if◌then◌else◌,
}
use distributed_sync_system.Config.Words.{parse_peers, is_empty}
use distributed_sync_system.Config.Numbers.{parse_int, str}

-- `os.environ`, after `load_dotenv`.
abbrev pub Environment : Type 0
Environment = String → Option String

abbrev pub or_default : String → Option String → String
or_default d none = d
or_default d (some s) = s

-- `os.getenv(name, default)`
unfoldable pub getenv : Environment → String → String → String
getenv env name default = or_default default (env name)

-- `s.lower() == "true"`
unfoldable pub lower_code : ℕ → ℕ
lower_code c = if leb 65 c && leb c 90 then c + 32 else c

unfoldable pub same_lower : String → String → Bool
unfolding lower_code
same_lower String.[] String.[] = true
same_lower String.[] (String.◌∷◌ d t) = false
same_lower (String.◌∷◌ c s) String.[] = false
same_lower (String.◌∷◌ c s) (String.◌∷◌ d t) = lower_code (code c) == code d && same_lower s t

-- `Real` stands for the floating-point numbers.
pub record Config {ℓ} (Real : Type ℓ) : Type ℓ where
  pub node_id : String
  pub node_host : String
  pub node_port : ℕ
  pub peer_nodes : List String
  pub redis_host : String
  pub redis_port : ℕ
  pub redis_db : ℕ
  pub redis_password : String
  pub election_timeout_min : Real
  pub election_timeout_max : Real
  pub heartbeat_interval : Real
  pub lock_timeout : Real
  pub deadlock_check_interval : Real
  pub queue_max_size : ℕ
  pub message_retry_interval : Real
  pub message_max_retries : ℕ
  pub virtual_nodes : ℕ
  pub cache_size : ℕ
  pub tls_enabled : Bool
  pub tls_cert_file : String
  pub tls_key_file : String
  pub audit_log_file : String
  pub api_key : String
  pub log_level : String

infixl 5 ◌>>=◌
abbrev pub ◌>>=◌ {ℓ κ} : {A : Type ℓ} {B : Type κ} → Option A → (A → Option B) → Option B
none >>= f = none
some a >>= f = f a

-- The values of the variables, read in the order of the class; `none` is the ValueError of the first one
-- that is no number. `float` reads a floating-point number.
module _ {ℓ} {Real : Type ℓ} (float : String → Option Real) where
  abbrev int_var : Environment → String → String → Option ℕ
  int_var env name default = parse_int (getenv env name default)

  abbrev float_var : Environment → String → String → Option Real
  float_var env name default = float (getenv env name default)

  unfoldable pub load : Environment → Option (Config Real)
  unfolding getenv same_lower
  load env = do
    node_port ← int_var env "NODE_PORT" "8001"
    redis_port ← int_var env "REDIS_PORT" "6379"
    redis_db ← int_var env "REDIS_DB" "0"
    election_timeout_min ← float_var env "ELECTION_TIMEOUT_MIN" "1.5"
    election_timeout_max ← float_var env "ELECTION_TIMEOUT_MAX" "3.0"
    heartbeat_interval ← float_var env "HEARTBEAT_INTERVAL" "0.5"
    lock_timeout ← float_var env "LOCK_TIMEOUT" "30.0"
    deadlock_check_interval ← float_var env "DEADLOCK_CHECK_INTERVAL" "5.0"
    queue_max_size ← int_var env "QUEUE_MAX_SIZE" "10000"
    message_retry_interval ← float_var env "MESSAGE_RETRY_INTERVAL" "5.0"
    message_max_retries ← int_var env "MESSAGE_MAX_RETRIES" "3"
    virtual_nodes ← int_var env "VIRTUAL_NODES" "150"
    cache_size ← int_var env "CACHE_SIZE" "1000"
    some record {
      node_id = getenv env "NODE_ID" "node1";
      node_host = getenv env "NODE_HOST" "0.0.0.0";
      node_port = node_port;
      peer_nodes = parse_peers (getenv env "PEER_NODES" "");
      redis_host = getenv env "REDIS_HOST" "localhost";
      redis_port = redis_port;
      redis_db = redis_db;
      redis_password = getenv env "REDIS_PASSWORD" "";
      election_timeout_min = election_timeout_min;
      election_timeout_max = election_timeout_max;
      heartbeat_interval = heartbeat_interval;
      lock_timeout = lock_timeout;
      deadlock_check_interval = deadlock_check_interval;
      queue_max_size = queue_max_size;
      message_retry_interval = message_retry_interval;
      message_max_retries = message_max_retries;
      virtual_nodes = virtual_nodes;
      cache_size = cache_size;
      tls_enabled = same_lower (getenv env "TLS_ENABLED" "false") "true";
      tls_cert_file = getenv env "TLS_CERT_FILE" "security/certs/node.crt";
      tls_key_file = getenv env "TLS_KEY_FILE" "security/certs/node.key";
      audit_log_file = getenv env "AUDIT_LOG_FILE" "logs/audit.log";
      api_key = getenv env "API_KEY" "dev-secret-key-change-in-prod";
      log_level = getenv env "LOG_LEVEL" "INFO";
    }

unfoldable pub get_redis_url {ℓ} : {Real : Type ℓ} → Config Real → String
unfolding is_empty
get_redis_url c =
    if is_empty c.redis_password
    then "redis://" ++ c.redis_host ++ ":" ++ str c.redis_port ++ "/" ++ str c.redis_db
    else "redis://:"
      ++ c.redis_password
      ++ "@"
      ++ c.redis_host
      ++ ":"
      ++ str c.redis_port
      ++ "/"
      ++ str c.redis_db

unfoldable pub node_url {ℓ} : {Real : Type ℓ} → Config Real → String
node_url c = "http://" ++ c.node_id ++ ":" ++ str c.node_port

unfoldable pub all_nodes {ℓ} : {Real : Type ℓ} → Config Real → List String
unfolding node_url
all_nodes c = node_url c ∷ c.peer_nodes
