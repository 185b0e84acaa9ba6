-- ===== src/Raft/State.antt =====
-- The data of src/consensus/raft.py and the transitions that several methods share. A handler runs
-- under the node's lock, so it is a function of the state; `now` is its reading of the clock. A
-- command is any type. An index is an integer, -1 before the first entry, as in the source.
use distributed_sync_system.Base.{
  ℕ, ◌+◌, ◌/◌, Bool, false, Option, none, List, [], ◌∷◌, String, ℤ, pos, negsuc, ◌-ℤ◌, Dict, length,
}
use distributed_sync_system.Metrics.{Registry, set_gauge}

pub data NodeState : Type 0 where
  follower candidate leader : NodeState

pub record LogEntry (C : Type 0) : Type 0 where
  pub term : ℕ
  pub index : ℕ
  pub command : C

-- A client's future: it waits, has its result, or was cancelled by the client's timeout.
pub data Future : Type 0 where
  waiting cancelled : Future
  committed : ℕ → Future

pub record RaftNode (C : Type 0) : Type 0 where
  pub node_id : String
  pub peers : List String
  pub current_term : ℕ
  pub voted_for : Option String
  pub log : List (LogEntry C)
  pub commit_index : ℤ
  pub last_applied : ℤ
  pub next_index : Dict ℤ
  pub match_index : Dict ℤ
  pub state : NodeState
  pub current_leader : Option String
  pub votes_received : List String
  pub last_heartbeat : ℕ
  pub heartbeat_task : Bool
  pub apply_event : Bool
  pub pending : List (ℕ × Future)
  pub metrics : Registry

module _ {C : Type 0} where
  unfoldable pub init : String → List String → ℕ → Registry → RaftNode C
  init node_id peers now metrics = record {
    node_id = node_id;
    peers = peers;
    current_term = 0;
    voted_for = none;
    log = [];
    commit_index = negsuc 0;
    last_applied = negsuc 0;
    next_index = [];
    match_index = [];
    state = follower;
    current_leader = none;
    votes_received = [];
    last_heartbeat = now;
    heartbeat_task = false;
    apply_event = false;
    pending = [];
    metrics = metrics;
  }

  -- `len(self.log) - 1`
  unfoldable pub last_log_index : List (LogEntry C) → ℤ
  last_log_index log = pos (length log) -ℤ pos 1

  -- `self.log[-1].term if self.log else 0`
  unfoldable pub last_log_term : List (LogEntry C) → ℕ
  last_log_term [] = 0
  last_log_term (e ∷ []) = e.term
  last_log_term (e ∷ f ∷ log) = last_log_term (f ∷ log)

  -- Revert to follower with a newer term.
  unfoldable pub step_down : ℕ → ℕ → RaftNode C → RaftNode C
  step_down new_term now n = record n {
    current_term = new_term;
    voted_for = none;
    state = follower;
    last_heartbeat = now;
    metrics = set_gauge "raft_term" (pos new_term) n.metrics;
    heartbeat_task = false;
  }

-- `(len(self.peers) + 1) // 2 + 1`
unfoldable pub majority : List String → ℕ
majority peers = (length peers + 1) / 2 + 1
