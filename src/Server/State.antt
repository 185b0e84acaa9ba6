-- ===== src/Server/State.antt =====
-- The state of a node of src/main.py, with what its handlers get and answer. What the world gives a
-- handler (clock readings, fresh ids, answers of other nodes) is its argument `Given`, with what the other
-- tasks of the node do to it while the handler waits for the Raft log.
use distributed_sync_system.Base.{ℕ, Option, none, some, List, String}
use distributed_sync_system.Access.Roles.{}
use distributed_sync_system.Audit.Log.{AuditLogger, AuditEntry, Integrity}
use distributed_sync_system.Cache.Node.{CacheNode, PeekReply, ReadReply}
use distributed_sync_system.Lock.Api.{Answer, error_not_leader, acquired, released}
use distributed_sync_system.Cache.Status.{CacheStatus}
use distributed_sync_system.Lock.Status.{LockStatus}
use distributed_sync_system.Queue.Status.{QueueStatus}
use distributed_sync_system.Lock.Machine.{Command}
use distributed_sync_system.Lock.State.{LockManager}
use distributed_sync_system.Queue.Message.{Value, nothing}
use distributed_sync_system.Queue.Node.{QueueNode, ConsumeReply}
use distributed_sync_system.Raft.Append.{AppendReply}
use distributed_sync_system.Raft.Client.{Status}
use distributed_sync_system.Raft.State.{RaftNode, NodeState}
use distributed_sync_system.Raft.Vote.{VoteReply}
use distributed_sync_system.Server.Routes.{AcquireBody, ProduceBody}

pub data Details (J : Type 0) : Type 0 where
  no_details : Details J
  acquire_details : AcquireBody → Details J
  message_details : Value J → Details J

pub record App (S J V : Type 0) : Type 0 where
  pub raft : RaftNode Command
  pub locks : LockManager
  pub queue : QueueNode S
  pub cache : CacheNode V
  pub audit : AuditLogger
  pub log_file : List (AuditEntry (Details J))

pub record Given (S J V : Type 0) : Type 0 where
  pub now : ℕ
  pub later : ℕ
  pub fresh_id : String
  pub lock_timeout : ℕ
  pub forwarded : Option (Unit {0})
  pub peeked : List (Option (PeekReply V))
  pub meanwhile : App S J V → App S J V

-- `snapshot` stands for the report of all metrics: they are one registry in the source, and are kept apart
-- by component here.
pub data Reply (J V : Type 0) : Type 0 where
  snapshot done : Reply J V
  healthy : (node_id : String) → NodeState → Reply J V
  lock_report : LockStatus → Reply J V
  queue_report : QueueStatus → Reply J V
  cache_report : CacheStatus → Reply J V
  voted : VoteReply → Reply J V
  appended : AppendReply → Reply J V
  raft_report : Status → Reply J V
  locked : Answer → Reply J V
  produced : Value J → Reply J V
  consumed : ConsumeReply J → Reply J V
  was_read : ReadReply V → Reply J V
  peeked : PeekReply V → Reply J V
  entries : List (AuditEntry (Details J)) → Reply J V
  verified : Integrity → Reply J V
  refused : (status : ℕ) → Reply J V

unfoldable pub or_text : String → Option String → String
or_text d none = d
or_text d (some t) = t

-- `data.get("client_id", request.get("client_id", "anon"))`
unfoldable pub client_of : Option String → Option String → String
client_of none none = "anon"
client_of none (some client) = client
client_of (some client) _ = client

-- `data.get("payload", data.get("message"))`
unfoldable pub payload_of : {J : Type 0} → ProduceBody J → Value J
payload_of body = elim body.payload [
  | some v ↦ v
  | none ↦ elim body.message [ none ↦ nothing | some v ↦ v ]
]

unfoldable pub number_or : ℕ → Option ℕ → ℕ
number_or d none = d
number_or d (some n) = n

unfoldable pub status_text : Answer → String
status_text (error_not_leader _) = "error"
status_text (acquired _ _) = "acquired"
status_text (released _) = "released"
