-- ===== src/Messages/Base.antt =====
-- `BaseNode` of src/nodes/base_node.py: its parts, and the order in which they start and stop.
use distributed_sync_system.Base.{
  Bool, true, false, Option, none, some, List, String, if◌then◌else◌,
}
use distributed_sync_system.Messages.Calls.{MessagePassing, init, start, stop}
use distributed_sync_system.Detector.State.{FailureDetector}
use distributed_sync_system.Raft.Client.{Status, get_status}
use distributed_sync_system.Raft.State.{RaftNode}

-- `raft` is none where the node does not use it.
pub record BaseNode (C : Type 0) : Type 0 where
  pub node_id : String
  pub peers : List String
  pub messages : MessagePassing
  pub raft : Option (RaftNode C)
  pub detector : FailureDetector
  pub raft_running : Bool
  pub detector_running : Bool
  pub started : Bool

module _ {C : Type 0} where
  unfoldable pub init_node :
      String → List String → Option (RaftNode C) → FailureDetector → BaseNode C
  unfolding init
  init_node node_id peers raft detector = record {
    node_id = node_id;
    peers = peers;
    messages = init node_id;
    raft = raft;
    detector = detector;
    raft_running = false;
    detector_running = false;
    started = false;
  }

  abbrev is_some : Option (RaftNode C) → Bool
  is_some none = false
  is_some (some _) = true

  -- `hook` is `_on_start`, which runs before the node counts as started.
  unfoldable pub start_node : (BaseNode C → BaseNode C) → BaseNode C → BaseNode C
  unfolding start
  start_node hook n =
      let talking : BaseNode C = record n { messages = start n.messages } in
      let agreeing : BaseNode C = record talking {
        raft_running = if is_some n.raft then true else n.raft_running;
      } in
      record (hook (record agreeing { detector_running = true })) { started = true }

  -- `hook` is `_on_stop`, which runs when the other parts have stopped.
  unfoldable pub stop_node : (BaseNode C → BaseNode C) → BaseNode C → BaseNode C
  unfolding stop
  stop_node hook n =
      let blind : BaseNode C = record n { detector_running = false } in
      let alone : BaseNode C = record blind {
        raft_running = if is_some n.raft then false else n.raft_running;
      } in
      record (hook (record alone { messages = stop n.messages })) { started = false }

pub record BaseStatus : Type 0 where
  pub node_id : String
  pub peers : FailureDetector
  pub raft : Option Status

unfoldable pub get_base_status : {C : Type 0} → BaseNode C → BaseStatus
unfolding get_status
get_base_status n = record {
  node_id = n.node_id;
  peers = n.detector;
  raft = elim n.raft [ none ↦ none | some r ↦ some (get_status r) ];
}
