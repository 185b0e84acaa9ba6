-- ===== src/Lib.antt =====
-- A development about the distributed synchronisation system: a cluster of Python nodes that agree
-- on a log by Raft, and the services on top of it.
--
-- The parts, from the repository's root, and the modules that model them:
--   * src/utils/metrics.py: Metrics (counters, gauges, the registry), Metrics/Histograms (Histogram),
--     Metrics/Report (_init_metrics, get_snapshot), Metrics/Observed (what a histogram holds after some
--     values).
--   * src/utils/config.py: Config/Words (the text functions), Config/Numbers (int and decimal digits),
--     Config/Settings (the class Config), Config/Peers (the list of peers as a round trip) and
--     Config/Loaded (what is loaded). The environment and the reader of floating-point numbers are
--     arguments, and an integer is a number without a sign or underscores.
--   * src/consensus/raft.py: Raft/State (RaftNode, its data, _step_down), Raft/Vote
--     (handle_request_vote), Raft/Election (_start_election in two halves around its broadcast,
--     _become_leader), Raft/Append and Raft/Append/Log (handle_append_entries and its loop),
--     Raft/Replicate (_replicate_to_peer in two halves around its call, _advance_commit_index),
--     Raft/Apply (_apply_loop), Raft/Client (append_command around its wait, get_status), Raft/Steps
--     (the events of a node). Below them: Raft/Terms, Raft/Majority, Raft/Elected, Raft/Steady,
--     Raft/Leaders and Raft/Safety (elections, of a node and of the cluster),
--     Raft/Merge and Raft/Follower (what a follower stores), Raft/Commit with its children (what is
--     committed stays), Raft/Matching with its children (logs that match, in a
--     cluster with delayed and repeated requests), Raft/Committing,
--     Raft/Applied and
--     Raft/Replicated.
--   * src/nodes/lock_manager.py: Lock/State, Lock/Machine (_on_commit, _apply_acquire,
--     _apply_release), Lock/Cycles (_find_cycles), Lock/Deadlock (_resolve_deadlock and a round of
--     _deadlock_detection_loop), Lock/Api (acquire, release), Lock/Status (get_status). Below them:
--     Lock/Exclusion, Lock/Queue,
--     Lock/Waiting, Lock/Ending and Lock/Walks (the search for cycles), Lock/Victims and
--     Lock/Gauge.
--   * src/nodes/cache_node.py: Cache/Lru (LRUCache), Cache/Node (read, write, invalidate, peek of
--     CacheNode), Cache/Status (get_status). Below them: Cache/Order and Cache/Calls (the LRU order),
--     Cache/Found, Cache/Reads and
--     Cache/Writes (the handlers of one node), Cache/Peers (a write and its broadcast, two nodes),
--     Cache/Counted
--     (the hit rate).
--   * src/communication/failure_detector.py: Detector/State (FailureDetector), Detector/Status
--     (suspected_peers, get_status), Detector/Misses (its status against the misses in a row) and
--     Detector/Reported (the report).
--   * security/audit_logger.py: Audit/Log (AuditLogger and the file), Audit/Chain (what loggers of one file write),
--     Audit/Tampering (what the verification detects). The digest of an entry's content, the SHA-256 of
--     its JSON, is a parameter.
--   * src/nodes/queue_node.py: Ring/Hashing (ConsistentHashRing, with the MD5 numbers of its texts as
--     parameters), Ring/Points and Ring/Moves (which keys move). Queue/Keys (the keys in the store and the
--     names that are read out of them), Queue/Store (what is used of Redis, an interface), Queue/Message
--     (Message, _flatten, _unflatten, with Python's json as an interface), Queue/Node (_on_start,
--     produce, _store_message, consume, acknowledge), Queue/Redeliver (_check_and_redeliver, its loop),
--     Queue/Status (get_status), Queue/Tasks (the same calls between their awaits). Below them: Queue/Reads and Queue/Stored (what is read back),
--     Queue/Kept with its
--     children (what whole calls keep, and what a check does with a message whose time is over),
--     Queue/Tasks with its children (where a message is between the awaits), Queue/Order (the queue as a
--     first-in first-out queue), Queue/Produce (two nodes and a request between them).
--   * src/communication/message_passing.py and src/nodes/base_node.py: Messages/Calls (MessagePassing,
--     _ping_peer), Messages/Base (BaseNode), Messages/Broadcast (what a broadcast answers and counts).
--   * main.py: Server/Routes (create_app), Server/State, Server/Handlers and Server/Serve (the
--     handlers, and a request behind the middleware). Below them: Server/Guard (who may change what),
--     Server/Trail (what is audited).
--   * security/tls_manager.py: Access/Roles (the tables, auth_middleware), Access/Guard (what it lets
--     through).
--   * Base has the names that all share: tests on numbers, lists and integers over the native numbers,
--     sets of names, dictionaries, results, counting.
--
-- How they interact: a lock manager submits its commands to its Raft node (append_command, whose
-- answer is an argument of acquire_answer and release_answer) and gets the committed ones back
-- through the callback of the apply loop (apply_round returns the entry that the callback gets,
-- on_commit takes its command). All count into one registry in the source; here each component's
-- state has one of its own. A queue node hashes a message's id on its ring and forwards it by a
-- call of MessagePassing, whose answer is an argument of produce. The server's state has one of
-- each component; its handlers call their operations and the audit logger, and auth_middleware
-- decides which requests get to a handler.
--
-- How code becomes definitions: a handler of the Raft node, the lock manager, the cache or the
-- audit logger runs under its component's lock or has no await, so it is a function of the state to
-- the new state and the reply. Where a task gives the lock back and waits, it is two functions, and
-- Raft/Steps makes each half an event, so that a list of events is any interleaving of a node's
-- tasks with any answers of the network. QueueNode has no lock: Queue/Node and Queue/Redeliver have
-- each call as it runs without another task between its awaits, and Queue/Tasks has it command by
-- command, each an event of which any order is a list, with cancellations; Queue/Tasks/Alone joins
-- the two. A request that waits for the Raft log lets the other tasks of its node change the
-- server's state by any function (Given, meanwhile). The file of the audit log may have several
-- loggers. An exception is a value (Outcome), and the state with it is the one that the exception
-- leaves. A dictionary is an association list in order of insertion, a set a list without
-- repetition, in the order in which loops run over it. Terms are natural numbers, log indices
-- integers with -1 before the first entry, a clock reading a natural number that the handler gets
-- once, a command of the log any type. A request or reply is a record of the fields that the
-- handler reads.
--
-- Bounds: the inner loop of the apply loop runs at most commit_index - last_applied times, which is
-- the fuel of catch_up; the search for cycles goes down at most once for each client that the wait-
-- for graph names, which is the fuel that find_cycles gives to dfs; a number has no more decimal
-- digits than its value and one, which is the fuel of str_onto, and parse_int-str shows that str
-- writes the whole number.
--
-- What is not under the repository is a parameter: Redis is the interface Redis of Queue/Store,
-- with the documented effect of each command on hashes, lists and sorted sets as laws; Python's
-- json and its conversions of numbers are the interface Codec of Queue/Message. Queue/Tests has a
-- store in memory and a codec that fulfil the laws.
--
-- Not modelled: HTTP and the matching of paths, the text of JSON, the tasks' loops around their
-- waits, the start and the end of the server, the one report of all metrics, logging, TLS
-- certificates, the expiry of a hash in Redis and its failures, load tests and benchmarks.
pub mod Base
pub mod Metrics
pub mod Raft
pub mod Lock
pub mod Access
pub mod Audit
pub mod Cache
pub mod Config
pub mod Detector
pub mod Messages
pub mod Queue
pub mod Ring
pub mod Server
