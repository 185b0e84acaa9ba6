-- ===== src/Server/Routes.antt =====
-- The routes of `create_app` of src/main.py: a request by its route, with what the handler reads of it.
-- The HTTP library has matched it; a key is the part of the path that stands for it, decoded. A body is
-- an object whose fields have the types that the handlers expect.
use Prim.Native.String.{◌++◌}
use distributed_sync_system.Base.{ℕ, Option, String, Dict}
use distributed_sync_system.Lock.Machine.{Command}
use distributed_sync_system.Queue.Message.{Value}
use distributed_sync_system.Raft.Vote.{VoteRequest}
use distributed_sync_system.Raft.Append.{AppendRequest}

pub record AcquireBody : Type 0 where
  pub lock_id : Option String
  pub client_id : Option String
  pub lock_type : Option String
  pub timeout : Option ℕ

pub record ReleaseBody : Type 0 where
  pub lock_id : Option String
  pub client_id : Option String

pub record ProduceBody (J : Type 0) : Type 0 where
  pub queue : Option String
  pub payload : Option (Value J)
  pub message : Option (Value J)
  pub producer_id : Option String

pub record ConsumeBody : Type 0 where
  pub queue : Option String
  pub consumer_id : Option String
  pub ack_timeout : Option ℕ

pub record AckBody : Type 0 where
  pub queue : Option String
  pub message_id : Option String

pub data Route (J V : Type 0) : Type 0 where
  health raft_status lock_status queue_status cache_status get_metrics audit_verify : Route J V
  raft_vote : VoteRequest → Route J V
  raft_append : AppendRequest Command → Route J V
  acquire_route : AcquireBody → Route J V
  release_route : ReleaseBody → Route J V
  queue_produce : ProduceBody J → Route J V
  queue_consume : ConsumeBody → Route J V
  queue_ack : AckBody → Route J V
  queue_store : Dict (Value J) → Route J V
  cache_read : (key : String) → Route J V
  cache_write : (key : String) → Option V → Route J V
  cache_invalidate : (key : String) → Route J V
  cache_peek : (key : String) → Route J V
  cache_invalidate_rpc : (key : String) → Route J V
  audit_logs : Option ℕ → Route J V

module _ {J V : Type 0} where
  unfoldable pub method_of : Route J V → String
  method_of (raft_vote _) = "POST"
  method_of (raft_append _) = "POST"
  method_of (acquire_route _) = "POST"
  method_of (release_route _) = "POST"
  method_of (queue_produce _) = "POST"
  method_of (queue_consume _) = "POST"
  method_of (queue_ack _) = "POST"
  method_of (queue_store _) = "POST"
  method_of (cache_write _ _) = "PUT"
  method_of (cache_invalidate _) = "DELETE"
  method_of (cache_invalidate_rpc _) = "POST"
  method_of _ = "GET"

  unfoldable pub path_of : Route J V → String
  path_of health = "/health"
  path_of raft_status = "/raft/status"
  path_of (raft_vote _) = "/raft/vote"
  path_of (raft_append _) = "/raft/append"
  path_of (acquire_route _) = "/lock/acquire"
  path_of (release_route _) = "/lock/release"
  path_of lock_status = "/lock/status"
  path_of (queue_produce _) = "/queue/produce"
  path_of (queue_consume _) = "/queue/consume"
  path_of (queue_ack _) = "/queue/ack"
  path_of (queue_store _) = "/queue/store"
  path_of queue_status = "/queue/status"
  path_of cache_status = "/cache/status"
  path_of (cache_read key) = "/cache/" ++ key
  path_of (cache_write key _) = "/cache/" ++ key
  path_of (cache_invalidate key) = "/cache/" ++ key
  path_of (cache_peek key) = "/cache/peek/" ++ key
  path_of (cache_invalidate_rpc key) = "/cache/invalidate/" ++ key
  path_of get_metrics = "/metrics"
  path_of (audit_logs _) = "/audit/logs"
  path_of audit_verify = "/audit/verify"
